-- ===== src/Logs.antt =====
-- snooze_core/logging.py: `BoundedLogSet`. Bytes are numbers; opening, flushing and closing files, and
-- writes that fail, are not modelled.
pub mod Lists
pub mod Streams
pub mod Bounds
use codex_waiting_plgin.Prelude.{
  ◌&&◌, List, true, ◌-◌, ltb, not, [], ℕ, ◌+◌, false, Bool, zero, ◌∷◌, ◌++◌, leb, if◌then◌else◌,
  ◌||◌, nat_eq, suc, length,
}
use codex_waiting_plgin.Store.Records.{LogInfo}
use codex_waiting_plgin.Store.States.{fine, truncated, LoggingState}
use codex_waiting_plgin.AppServer.{written}

abbrev pub Bytes : Type 0
Bytes = List ℕ

abbrev pub take : {A : Type 0} → ℕ → List A → List A
take zero xs = []
take (suc n) [] = []
take (suc n) (x ∷ xs) = x ∷ take n xs

-- `LogLimits`.
pub record LogLimits : Type 0 where
  pub max_log_bytes : ℕ
  pub max_preview_bytes : ℕ
  pub max_preview_lines : ℕ
  pub max_single_line_bytes : ℕ

-- One of the three files, with its entries of `_written` and `_truncated`.
pub record Log : Type 0 where
  pub file : Bytes
  pub written : ℕ
  pub truncated : Bool

-- A file that was not there before; opening one that is there would go on at its end.
abbrev pub empty_log : Log
empty_log = record { file = []; written = 0; truncated = false }

-- `_write_bounded`.
unfoldable pub write_bounded : LogLimits → Bytes → Log → Log
write_bounded limits payload f =
    if leb limits.max_log_bytes f.written
    then record f { truncated = true }
    else (let chunk = take (limits.max_log_bytes - f.written) payload in
        record {
          file = f.file ++ chunk;
          written = f.written + length chunk;
          truncated = if nat_eq (length chunk) (length payload) then f.truncated else true;
        })

-- `bytes.splitlines(keepends=True)`: a line ends after LF, CR, or CR and LF.
abbrev newline : ℕ
newline = 10

abbrev carriage_return : ℕ
carriage_return = 13

abbrev starts_newline : Bytes → Bool
starts_newline [] = false
starts_newline (b ∷ bs) = nat_eq b newline

abbrev pub push : ℕ → List Bytes → List Bytes
push b [] = (b ∷ []) ∷ []
push b (l ∷ ls) = (b ∷ l) ∷ ls

abbrev pub ends_line : ℕ → Bytes → Bool
ends_line b bs = nat_eq b newline || (nat_eq b carriage_return && not (starts_newline bs))

abbrev pub splitlines : Bytes → List Bytes
splitlines [] = []
splitlines (b ∷ bs) =
    let rest = splitlines bs in if ends_line b bs then (b ∷ []) ∷ rest else push b rest

-- `line.endswith((b"\n", b"\r"))`.
abbrev pub is_complete_line : Bytes → Bool
is_complete_line [] = false
is_complete_line (b ∷ []) = nat_eq b newline || nat_eq b carriage_return
is_complete_line (b ∷ c ∷ bs) = is_complete_line (c ∷ bs)

-- The fields `_preview...`.
pub record Preview : Type 0 where
  pub bytes : Bytes
  pub lines : ℕ
  pub line_bytes : ℕ
  pub truncated : Bool

abbrev pub empty_preview : Preview
empty_preview = record { bytes = []; lines = 0; line_bytes = 0; truncated = false }

abbrev cut : Preview → Preview
cut p = record p { truncated = true }

-- The part of a line that the line may still take, and the preview after the test on it.
abbrev pub clipped : LogLimits → Bytes → Preview → Bytes
clipped limits line p = take (limits.max_single_line_bytes - p.line_bytes) line

abbrev note_clipped : LogLimits → Bytes → Preview → Preview
note_clipped limits line p =
    if nat_eq (length (clipped limits line p)) (length line) then p else cut p

abbrev extend : LogLimits → Bytes → Preview → Preview
extend limits line p = record (note_clipped limits line p) {
  bytes = p.bytes ++ take (limits.max_preview_bytes - length p.bytes) (clipped limits line p);
  line_bytes = p.line_bytes + length (clipped limits line p);
}

abbrev end_line : Bytes → Preview → Preview
end_line line p =
    if is_complete_line line then record p { lines = suc p.lines; line_bytes = 0 } else p

-- One round of the loop of `_add_preview`: the preview, and whether the loop goes on.
unfoldable pub add_line : LogLimits → Bytes → Preview → Preview × Bool
add_line limits line p =
    if leb limits.max_preview_lines p.lines
    then (cut p, false)
    else if leb limits.max_preview_bytes (length p.bytes)
    then (cut (note_clipped limits line p), false)
    else if ltb (limits.max_preview_bytes - length p.bytes) (length (clipped limits line p))
    then (cut (extend limits line p), false)
    else (end_line line (extend limits line p), true)

unfoldable pub add_lines : LogLimits → List Bytes → Preview → Preview
add_lines limits [] p = p
add_lines limits (line ∷ rest) p =
    let (q, more) = add_line limits line p in
    let next = add_lines limits rest q in if more then next else q

-- `_add_preview`.
unfoldable pub add_preview : LogLimits → Bytes → Preview → Preview
add_preview limits payload p = add_lines limits (splitlines payload) p

pub data Stream : Type 0 where
  stdout stderr : Stream

-- The object; `encode` makes the line of the combined log from the number, the stream and the bytes.
pub record LogSet : Type 0 where
  pub out : Log
  pub err : Log
  pub combined : Log
  pub preview : Preview
  pub sequence : ℕ

abbrev pub Encode : Type 0
Encode = ℕ → Stream → Bytes → Bytes

abbrev pub empty_log_set : LogSet
empty_log_set = record {
  out = empty_log;
  err = empty_log;
  combined = empty_log;
  preview = empty_preview;
  sequence = 0;
}

abbrev write_stream : LogLimits → Stream → Bytes → LogSet → LogSet
write_stream limits stdout payload s = record s { out = write_bounded limits payload s.out }
write_stream limits stderr payload s = record s { err = write_bounded limits payload s.err }

-- `write`.
unfoldable pub write : LogLimits → Encode → Stream → Bytes → LogSet → LogSet
write limits encode stream payload s =
    let t = write_stream limits stream payload s in
    record t {
      preview = add_preview limits payload s.preview;
      sequence = suc s.sequence;
      combined = write_bounded limits (encode (suc s.sequence) stream payload) s.combined;
    }

-- `info`.
unfoldable pub info : LogSet → LogInfo
info s = record {
  stdout_bytes = s.out.written;
  stderr_bytes = s.err.written;
  combined_bytes = s.combined.written;
  stdout_truncated = s.out.truncated;
  stderr_truncated = s.err.truncated;
  combined_truncated = s.combined.truncated;
  preview_truncated = s.preview.truncated;
  state =
      if s.out.truncated || s.err.truncated || s.combined.truncated || s.preview.truncated
      then LoggingState.truncated
      else fine;
}
