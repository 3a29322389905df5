-- ===== src/Reader/State.antt =====
-- reader.go: the state of a Reader, and refilling its buffer. The bytes `r.buf[r.head:r.tail]` are
-- the list `unread`; `r.reader` is the list of answers that its Read will give, since the code behind
-- an io.Reader is not part of the package. A list that has run out answers io.EOF.
use avro.Prelude.{
  ℕ, suc, String, Bool, true, false, Option, none, some, List, [], ◌∷◌, if◌then◌else◌, leb,
}
use avro.Errors.{Error, eof, unexpected_eof, no_progress, report, diverged, is_eof, is_set}
use avro.Config.{Config}

-- One answer of `Read(p)`: the bytes copied to `p`, and the error.
pub record ReadResult : Type 0 where
  pub bytes : List ℕ
  pub err : Option Error

pub record Reader : Type 0 where
  pub cfg : Config
  pub config_err : Option Error
  pub source : Option (List ReadResult)
  pub unread : List ℕ
  pub pending_err : Option Error
  pub error : Option Error

-- `NewReader` with the configuration of an API, and its error where the API is not one of the package.
unfoldable pub new_reader : Config → Option Error → Option (List ReadResult) → Reader
new_reader cfg config_err source = record {
  cfg = cfg;
  config_err = config_err;
  source = source;
  unread = [];
  pending_err = none;
  error = config_err;
}

-- `Reset(b)` of a reader that has a configuration.
unfoldable pub reset : Reader → List ℕ → Reader
reset r b = record r { source = none; unread = b; pending_err = none; error = r.config_err }

-- An error that is not io.EOF stays.
abbrev report_after : Option Error → Error → Error
report_after none e = e
report_after (some old) e = if is_eof old then e else old

unfoldable pub report_error : Reader → String → String → Reader
unfolding is_eof
report_error r operation msg = record r {
  error = some (report_after r.error (report operation msg));
}

unfoldable pub report_unexpected_eof : Reader → Reader
unfolding is_eof
report_unexpected_eof r = record r { error = some (report_after r.error unexpected_eof) }

-- `if r.Error == nil { r.Error = err }`
abbrev pub keep_first : Option Error → Error → Option Error
keep_first none e = some e
keep_first (some old) e = some old

abbrev pub max_consecutive_empty_reads : ℕ
max_consecutive_empty_reads = 100

-- How the loop of `loadMore` over `r.reader.Read` ends.
pub data Refill : Type 0 where
  filled : ReadResult → List ReadResult → Refill
  failed : Error → List ReadResult → Refill

unfoldable pub read_source : ℕ → List ReadResult → Refill
read_source empty_reads [] = failed eof []
read_source empty_reads (answer ∷ rest) =
    let again = read_source (suc empty_reads) rest in
    elim answer.bytes [
      | b ∷ bs ↦ filled answer rest
      | [] ↦ elim answer.err [
        | some e ↦ failed e rest
        | none ↦
            if leb max_consecutive_empty_reads empty_reads then failed no_progress rest else again
      ]
    ]

abbrev refilled : Reader → Refill → Bool × Reader
refilled r (filled answer rest) =
    (true, record r { source = some rest; unread = answer.bytes; pending_err = answer.err })
refilled r (failed e rest) = (false, record r { source = some rest; error = keep_first r.error e })

abbrev load_from : Option (List ReadResult) → Reader → Bool × Reader
load_from (some answers) r = refilled r (read_source 0 answers)
load_from none r = elim r.error [
  | none ↦ (false, record r { unread = []; error = some eof })
  | some e ↦ (false, r)
]

abbrev load_pending : Option Error → Reader → Bool × Reader
load_pending (some e) r = (false, record r { error = keep_first r.error e; pending_err = none })
load_pending none r = load_from r.source r

unfoldable pub load_more : Reader → Bool × Reader
load_more r = load_pending r.pending_err r

-- `if r.head == r.tail { if !r.loadMore() { … } }`
abbrev pub load_unless : List ℕ → Reader → Bool × Reader
load_unless [] r = load_more r
load_unless (b ∷ bs) r = (true, r)

unfoldable pub load_if_empty : Reader → Bool × Reader
load_if_empty r = load_unless r.unread r

-- `b := r.buf[r.head]; r.head++` where the buffer is not empty.
abbrev pub pop : List ℕ → Reader → ℕ × Reader
pop [] r = (0, r)
pop (b ∷ bs) r = (b, record r { unread = bs })

unfoldable pub read_byte : Reader → ℕ × Reader
unfolding load_if_empty load_more
read_byte r =
    let (more, r') = load_if_empty r in
    if more then pop r'.unread r' else (0, report_unexpected_eof r')

abbrev first : List ℕ → ℕ
first [] = 0
first (b ∷ bs) = b

unfoldable pub peek : Reader → ℕ × Reader
unfolding load_if_empty load_more
peek r = let (more, r') = load_if_empty r in (if more then first r'.unread else 0, r')

abbrev pub diverge : Reader → Reader
diverge r = record r { error = some diverged }

-- `Reader.Error != nil`
abbrev pub has_error : Reader → Bool
has_error r = is_set r.error
