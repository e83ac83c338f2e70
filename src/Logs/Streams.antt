-- ===== src/Logs/Streams.antt =====
-- A log file holds the first bytes of its stream.
use codex_waiting_plgin.Logs.{
  take, write_bounded, Log, LogLimits, Bytes, write, empty_log_set, LogSet, stdout, stderr, Encode,
  empty_log, Stream,
}
use codex_waiting_plgin.Logs.Lists.{take_through, length-take, take_full, take_past}
use codex_waiting_plgin.Prelude.{
  ltb, ◌++◌, ◌∷◌, length, ◌≡◌, arith, ℕ, ◌-◌, List, [], append_assoc, length-append, append-nil,
  ◌||◌, suc, false, true, ◌⊎◌, refl, zero, Bool,
}

-- The file holds the first bytes of a stream, at most the limit, and its length is counted. It is
-- marked exactly where bytes of the stream are missing; only where the stream is as long as the limit
-- it may be marked by a write of nothing.
abbrev pub IsPrefixLog : LogLimits → Bool → Bytes → Log → Type 0
IsPrefixLog limits nothing bs f =
    (f.file ≡ take limits.max_log_bytes bs)
    × (f.written ≡ length f.file)
    × ((f.truncated ≡ ltb limits.max_log_bytes (length bs))
        ⊎ ((nothing ≡ true) × (f.truncated ≡ true) × (length bs ≡ limits.max_log_bytes)))

abbrev pub is_nothing : Bytes → Bool
is_nothing [] = true
is_nothing (b ∷ bs) = false

write_bytes-IsPrefixLog :
    (limits : LogLimits) (nothing : Bool) (b : ℕ) (p bs : Bytes) (f : Log)
    → IsPrefixLog limits nothing bs f
    → IsPrefixLog limits nothing (bs ++ b ∷ p) (write_bounded limits (b ∷ p) f)
unfolding write_bounded
write_bytes-IsPrefixLog limits nothing b p bs f h = ground (
  arith,
  take_past limits.max_log_bytes bs (b ∷ p),
  take_through limits.max_log_bytes bs (b ∷ p),
  take_full limits.max_log_bytes bs,
  length-take limits.max_log_bytes bs,
  length-take (limits.max_log_bytes - length bs) (b ∷ p),
  length-append bs (b ∷ p),
  length-append bs (take (limits.max_log_bytes - length bs) (b ∷ p)),
)

take_nothing : (n : ℕ) → take {A = ℕ} n [] ≡ []
take_nothing zero = refl
take_nothing (suc n) = refl

write_nothing-IsPrefixLog :
    (limits : LogLimits) (nothing : Bool) (bs : Bytes) (f : Log)
    → IsPrefixLog limits nothing bs f
    → IsPrefixLog limits true bs (write_bounded limits [] f)
unfolding write_bounded
write_nothing-IsPrefixLog limits nothing bs f h =
    rw (take_nothing (limits.max_log_bytes - f.written), append-nil f.file)
      (ground (arith, length-take limits.max_log_bytes bs))

write-IsPrefixLog :
    (limits : LogLimits) (nothing : Bool) (p bs : Bytes) (f : Log)
    → IsPrefixLog limits nothing bs f
    → IsPrefixLog limits (is_nothing p || nothing) (bs ++ p) (write_bounded limits p f)
write-IsPrefixLog limits nothing [] bs f h =
    rw (append-nil bs) (write_nothing-IsPrefixLog limits nothing bs f h)
write-IsPrefixLog limits nothing (b ∷ p) bs f h = write_bytes-IsPrefixLog limits nothing b p bs f h

-- A write: the stream and the bytes, which may be none; the supervisor writes some each time.
abbrev pub Write : Type 0
Write = Stream × Bytes

unfoldable pub write_all : LogLimits → Encode → List Write → LogSet → LogSet
write_all limits encode [] s = s
write_all limits encode ((stream, p) ∷ ws) s =
    write_all limits encode ws (write limits encode stream p s)

-- What was written to a stream, and whether one of the writes, or `before`, wrote nothing.
abbrev pub sent_out : List Write → Bytes
sent_out [] = []
sent_out ((stdout, p) ∷ ws) = p ++ sent_out ws
sent_out ((stderr, p) ∷ ws) = sent_out ws

abbrev pub sent_err : List Write → Bytes
sent_err [] = []
sent_err ((stdout, p) ∷ ws) = sent_err ws
sent_err ((stderr, p) ∷ ws) = p ++ sent_err ws

abbrev pub nothing_out : Bool → List Write → Bool
nothing_out before [] = before
nothing_out before ((stdout, p) ∷ ws) = nothing_out (is_nothing p || before) ws
nothing_out before ((stderr, p) ∷ ws) = nothing_out before ws

abbrev pub nothing_err : Bool → List Write → Bool
nothing_err before [] = before
nothing_err before ((stdout, p) ∷ ws) = nothing_err before ws
nothing_err before ((stderr, p) ∷ ws) = nothing_err (is_nothing p || before) ws

abbrev Streams : LogLimits → Bool → Bool → Bytes → Bytes → LogSet → Type 0
Streams limits m n o e s = IsPrefixLog limits m o s.out × IsPrefixLog limits n e s.err

write_all-Streams :
    (limits : LogLimits) (encode : Encode) (ws : List Write) (m n : Bool) (o e : Bytes) (s : LogSet)
    → Streams limits m n o e s
    → Streams limits
        (nothing_out m ws)
        (nothing_err n ws)
        (o ++ sent_out ws)
        (e ++ sent_err ws)
        (write_all limits encode ws s)
unfolding write_all write
write_all-Streams limits encode [] m n o e s h = rw (append-nil o, append-nil e) h
write_all-Streams limits encode ((stdout, p) ∷ ws) m n o e s h =
    rw (append_assoc o p (sent_out ws)) at (
      write_all-Streams limits encode ws (is_nothing p || m) n (o ++ p) e
        (write limits encode stdout p s) (write-IsPrefixLog limits m p o s.out h.0, h.1))
write_all-Streams limits encode ((stderr, p) ∷ ws) m n o e s h =
    rw (append_assoc e p (sent_err ws)) at (
      write_all-Streams limits encode ws m (is_nothing p || n) o (e ++ p)
        (write limits encode stderr p s) (h.0, write-IsPrefixLog limits n p e s.err h.1))

empty_is_prefix : (limits : LogLimits) → IsPrefixLog limits false [] empty_log
empty_is_prefix limits = ground (arith, take_full limits.max_log_bytes [])

-- After any writes to a log set of empty files, in any order of the two streams, each of the two
-- files holds the first bytes of what was written to its stream, at most the limit, and its length is
-- the recorded one. It is marked as truncated exactly where the stream is longer than the limit, but
-- that, where the stream is as long as the limit and some write to it wrote nothing, it may be marked
-- as well.
pub write_all-IsPrefixLog :
    (limits : LogLimits) (encode : Encode) (ws : List Write)
    → let s = write_all limits encode ws empty_log_set in
      IsPrefixLog limits (nothing_out false ws) (sent_out ws) s.out
      × IsPrefixLog limits (nothing_err false ws) (sent_err ws) s.err
write_all-IsPrefixLog limits encode ws =
    write_all-Streams limits encode ws false false [] [] empty_log_set
      (empty_is_prefix limits, empty_is_prefix limits)
