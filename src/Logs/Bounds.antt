-- ===== src/Logs/Bounds.antt =====
-- The preview of the logs and its bounds.
use codex_waiting_plgin.Logs.{
  Bytes, add_lines, ends_line, clipped, splitlines, Preview, push, take, LogLimits, add_line,
  Stream, add_preview, write, empty_log_set, Encode, info, LogSet,
}
use codex_waiting_plgin.Prelude.{
  inl, ◌≤◌, ℕ, ◌++◌, ◌-◌, [], Bool-cases, List, refl, arith, ◌≡◌, ap, ◌∷◌, ◌∙◌, inr, length, sym,
  true, false, append_assoc, length-append, append-nil,
}
use codex_waiting_plgin.Logs.Lists.{length-take, take_full}
use codex_waiting_plgin.Store.States.{fine}
use codex_waiting_plgin.Logs.Streams.{write_all, write_all-IsPrefixLog, sent_out, sent_err, Write}
use codex_waiting_plgin.AppServer.{stop}

-- Within the three limits.
abbrev pub Fits : LogLimits → Preview → Type 0
Fits limits p =
    (length p.bytes ≤ limits.max_preview_bytes)
    × (p.lines ≤ limits.max_preview_lines)
    × (p.line_bytes ≤ limits.max_single_line_bytes)

add_line-Fits :
    (limits : LogLimits) (line : Bytes) (p : Preview)
    → Fits limits p
    → Fits limits (add_line limits line p).0
unfolding add_line
add_line-Fits limits line p h = ground (
  arith,
  length-take (limits.max_single_line_bytes - p.line_bytes) line,
  length-take (limits.max_preview_bytes - length p.bytes) (clipped limits line p),
  length-append p.bytes (take (limits.max_preview_bytes - length p.bytes) (clipped limits line p)),
)

add_lines-Fits :
    (limits : LogLimits) (ls : List Bytes) (p : Preview)
    → Fits limits p
    → Fits limits (add_lines limits ls p)
unfolding add_lines
add_lines-Fits limits [] p h = h
add_lines-Fits limits (l ∷ ls) p h =
    let k = add_line-Fits limits l p h in
    elim (Bool-cases (add_line limits l p).1) [
      | inl more ↦ rw more (add_lines-Fits limits ls (add_line limits l p).0 k)
      | inr stop ↦ rw stop k
    ]

unfoldable join : List Bytes → Bytes
join [] = []
join (l ∷ ls) = l ++ join ls

join-push : (b : ℕ) (ls : List Bytes) → join (push b ls) ≡ b ∷ join ls
unfolding join
join-push b [] = refl
join-push b (l ∷ ls) = refl

-- The lines of a text are the text.
join-splitlines : (bs : Bytes) → join (splitlines bs) ≡ bs
unfolding join
join-splitlines [] = refl
join-splitlines (b ∷ bs) = elim (Bool-cases (ends_line b bs)) [
  | inl e ↦ rw e (ap (λ l. b ∷ l) (join-splitlines bs))
  | inr e ↦ rw e (join-push b (splitlines bs) ∙ ap (λ l. b ∷ l) (join-splitlines bs))
]

-- A line that leaves the preview unmarked was added whole, and the loop goes on.
add_line_whole :
    (limits : LogLimits) (line : Bytes) (p : Preview)
    → (add_line limits line p).0.truncated ≡ false
    → ((add_line limits line p).0.bytes ≡ p.bytes ++ line)
      × ((add_line limits line p).1 ≡ true)
      × (p.truncated ≡ false)
unfolding add_line
add_line_whole limits line p h = ground (
  arith,
  length-take (limits.max_single_line_bytes - p.line_bytes) line,
  take_full (limits.max_single_line_bytes - p.line_bytes) line,
  take_full (limits.max_preview_bytes - length p.bytes) (clipped limits line p),
)

add_lines_whole :
    (limits : LogLimits) (ls : List Bytes) (p : Preview)
    → (add_lines limits ls p).truncated ≡ false
    → ((add_lines limits ls p).bytes ≡ p.bytes ++ join ls) × (p.truncated ≡ false)
unfolding add_lines join
add_lines_whole limits [] p h = (sym (append-nil p.bytes), h)
add_lines_whole limits (l ∷ ls) p h = elim (Bool-cases (add_line limits l p).1) [
  | inl more ↦
      let (eq, clear) = add_lines_whole limits ls (add_line limits l p).0 (rw more at h) in
      let whole = add_line_whole limits l p clear in
      rw more (eq ∙ ap (λ b. b ++ join ls) whole.0 ∙ append_assoc p.bytes l (join ls), whole.2)
  | inr stop ↦ absurd (ground (arith, add_line_whole limits l p (rw stop at h), stop))
]

unfoldable pub previewed : List Write → Bytes
previewed [] = []
previewed ((stream, p) ∷ ws) = p ++ previewed ws

add_preview_whole :
    (limits : LogLimits) (payload : Bytes) (p : Preview)
    → (add_preview limits payload p).truncated ≡ false
    → ((add_preview limits payload p).bytes ≡ p.bytes ++ payload) × (p.truncated ≡ false)
unfolding add_preview
add_preview_whole limits payload p h =
    let (eq, clear) = add_lines_whole limits (splitlines payload) p h in
    (eq ∙ ap (λ b. p.bytes ++ b) (join-splitlines payload), clear)

write_preview :
    (limits : LogLimits) (encode : Encode) (stream : Stream) (p : Bytes) (s : LogSet)
    → (write limits encode stream p s).preview ≡ add_preview limits p s.preview
unfolding write
write_preview limits encode stream p s = refl

write_all_whole :
    (limits : LogLimits) (encode : Encode) (ws : List Write) (s : LogSet)
    → (write_all limits encode ws s).preview.truncated ≡ false
    → ((write_all limits encode ws s).preview.bytes ≡ s.preview.bytes ++ previewed ws)
      × (s.preview.truncated ≡ false)
unfolding write_all previewed
write_all_whole limits encode [] s h = (sym (append-nil s.preview.bytes), h)
write_all_whole limits encode ((stream, p) ∷ ws) s h =
    let seen = write_preview limits encode stream p s in
    let (eq, clear) = write_all_whole limits encode ws (write limits encode stream p s) h in
    let (first, before) = add_preview_whole limits p s.preview (rw seen at clear) in
    (
      eq
          ∙ ap (λ x. x ++ previewed ws) (ap (λ q. q.bytes) seen ∙ first)
          ∙ append_assoc s.preview.bytes p (previewed ws),
      before,
    )

write_all-Fits :
    (limits : LogLimits) (encode : Encode) (ws : List Write) (s : LogSet)
    → Fits limits s.preview
    → Fits limits (write_all limits encode ws s).preview
unfolding write_all
write_all-Fits limits encode [] s h = h
write_all-Fits limits encode ((stream, p) ∷ ws) s h =
    write_all-Fits limits encode ws (write limits encode stream p s) (
      rw (write_preview limits encode stream p s)
        (unfold add_preview in add_lines-Fits limits (splitlines p) s.preview h))

-- After any writes to a new log set the preview is within its three limits: of its bytes, of its
-- complete lines and of the bytes of the line that is not ended.
pub preview-Fits :
    (limits : LogLimits) (encode : Encode) (ws : List Write)
    → Fits limits (write_all limits encode ws empty_log_set).preview
preview-Fits limits encode ws = write_all-Fits limits encode ws empty_log_set (ground arith)

-- Where `info` reports the state OK after any writes to a new log set, nothing is missing: the two
-- files hold all that was written to their streams, and the preview all that was written.
pub info_complete :
    (limits : LogLimits) (encode : Encode) (ws : List Write)
    → (info (write_all limits encode ws empty_log_set)).state ≡ fine
    → let s = write_all limits encode ws empty_log_set in
      (s.out.file ≡ sent_out ws) × (s.err.file ≡ sent_err ws) × (s.preview.bytes ≡ previewed ws)
unfolding info
info_complete limits encode ws h =
    let (o, e) = write_all-IsPrefixLog limits encode ws in
    let whole = write_all_whole limits encode ws empty_log_set (ground arith) in
    (
      ground (arith, take_full limits.max_log_bytes (sent_out ws)),
      ground (arith, take_full limits.max_log_bytes (sent_err ws)),
      whole.0,
    )
