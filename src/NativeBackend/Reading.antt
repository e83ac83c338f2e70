-- ===== src/NativeBackend/Reading.antt =====
-- Which events the wait sees.
use codex_waiting_plgin.Prelude.Exec.{ok, Outcome, raised}
use codex_waiting_plgin.Prelude.{
  ◌≡◌, ◌++◌, refl, length, String, ◌∷◌, List, ℕ, none, [], some, ◌≤◌, arith, ◌+◌, Option, false,
  length-append, is_some, ◌∙◌, ap,
}
use codex_waiting_plgin.Protocol.Json.{Json}
use codex_waiting_plgin.NativeBackend.{
  NativeError, read, Handle, wait, Exit, wait_timed_out, Event, with_output, outputs, push_all,
  found_or, meaning, Meaning, by_meaning, exits, read_up_to, skipped, exit_of,
}
use codex_waiting_plgin.NativeBackend.Bounded.{
  seen_logs, drop_past, push_all_bound, drop-append, push_all_appends,
}

abbrev pub concat : List (List Event) → List Event
concat [] = []
concat (es ∷ batches) = es ++ concat batches

-- A function of the three outcomes, by the meaning.
by_meaning_ap :
    {A B : Type 0} (f : A → B) (m : Meaning) (a b c : A)
    → by_meaning m (f a) (f b) (f c) ≡ f (by_meaning m a b c)
by_meaning_ap f skipped a b c = refl
by_meaning_ap f outputs a b c = refl
by_meaning_ap f exits a b c = refl

found_none :
    (o : Option Exit) (h : Handle) (rest : Outcome NativeError Exit × Handle)
    → is_some o ≡ false
    → found_or o h rest ≡ rest
found_none none h rest e = refl
found_none (some exit) h rest e = absurd (ground arith)

read_up_to-append : (xs ys : List Event) → read_up_to (length xs) (xs ++ ys) ≡ length (xs ++ ys)
read_up_to-append xs ys = ground (arith, length-append xs ys)

read_up_to_start : (xs : List Event) → read_up_to 0 xs ≡ length xs
read_up_to_start xs = ground arith

read_up_to_past : (n : ℕ) (xs : List Event) → length xs ≤ n → read_up_to n xs ≡ n
read_up_to_past n xs le = ground arith

module _ (decode : Option Json → List ℕ) (utf8 : List ℕ → String) where
  -- What the inner loop does with further events.
  abbrev then_read : List Event → Option Exit × Handle → Option Exit × Handle
  then_read es (some exit, h) = (some exit, h)
  then_read es (none, h) = read decode utf8 es h

  read-append :
      (es fs : List Event) (h : Handle)
      → read decode utf8 (es ++ fs) h ≡ then_read fs (read decode utf8 es h)
  unfolding read
  read-append [] fs h = refl
  read-append (e ∷ es) fs h =
      rw (read-append es fs h, read-append es fs (with_output decode utf8 h e.params))
        (by_meaning_ap (then_read fs) (meaning h e) (read decode utf8 es h)
          (read decode utf8 es (with_output decode utf8 h e.params))
          (some (exit_of decode utf8 h e.params), h))

  abbrev pub outcome : Option Exit × Handle → Outcome NativeError Exit × Handle
  outcome (some exit, h) = (ok exit, h)
  outcome (none, h) = (raised wait_timed_out, h)

  -- The rest of a wait, by what was read.
  found_outcome :
      (p : Option Exit × Handle) (es : List Event) (rest : Outcome NativeError Exit × Handle)
      → rest ≡ outcome (read decode utf8 es p.1)
      → found_or p.0 p.1 rest ≡ outcome (then_read es p)
  found_outcome (some exit, h) es rest e = refl
  found_outcome (none, h) es rest e = e

  read_on :
      (limit : ℕ) (log : List Event) (batches : List (List Event)) (h : Handle)
      → length log + length (concat batches) ≤ limit
      → wait decode utf8 (seen_logs limit log batches) (length log) h
        ≡ outcome (read decode utf8 (concat batches) h)
  unfolding wait read
  read_on limit log [] h fits = refl
  read_on limit log (es ∷ batches) h fits =
      let n = length-append es (concat batches) in
      let room : length log + length es ≤ limit = omega (arith, fits, n) in
      rw
        (
          push_all_appends limit log es room,
          drop-append log es,
          read_up_to-append log es,
          read-append es (concat batches) h,
        )
        (found_outcome (read decode utf8 es h) (concat batches) _ (
          read_on limit (log ++ es) batches (read decode utf8 es h).1
            (omega (arith, fits, n, length-append log es))))

  -- While the log has room for all events, the wait reads each event once and in order, up to the
  -- exit of its process, however the polls fall between them: it returns the exit with the output
  -- before it, or times out where there is none.
  pub wait_reads_all :
      (limit : ℕ) (log : List Event) (batches : List (List Event)) (h : Handle)
      → length log + length (concat batches) ≤ limit
      → wait decode utf8 (log ∷ seen_logs limit log batches) 0 h
        ≡ outcome (read decode utf8 (log ++ concat batches) h)
  unfolding wait
  wait_reads_all limit log batches h fits =
      rw (read_up_to_start log, read-append log (concat batches) h)
        (found_outcome (read decode utf8 log h) (concat batches) _
          (read_on limit log batches (read decode utf8 log h).1 fits))

  deaf :
      (limit : ℕ) (log : List Event) (batches : List (List Event)) (h : Handle)
      → length log ≤ limit
      → wait decode utf8 (seen_logs limit log batches) limit h ≡ (raised wait_timed_out, h)
  unfolding wait read
  deaf limit log [] h le = refl
  deaf limit log (es ∷ batches) h le =
      let bound = push_all_bound limit log es le in
      rw
        (
          drop_past limit (push_all limit log es) bound,
          read_up_to_past limit (push_all limit log es) bound,
        )
        (deaf limit (push_all limit log es) batches h bound)

  -- A wait whose first poll sees a full log without the exit of its process sees nothing more:
  -- whatever events come, the exit among them, it times out.
  pub full_log_is_deaf :
      (limit : ℕ) (log : List Event) (batches : List (List Event)) (h : Handle)
      → length log ≡ limit
      → is_some (read decode utf8 log h).0 ≡ false
      → (wait decode utf8 (log ∷ seen_logs limit log batches) 0 h).0 ≡ raised wait_timed_out
  unfolding wait
  full_log_is_deaf limit log batches h full n =
      let h' = (read decode utf8 log h).1 in
      let rest = wait decode utf8 (seen_logs limit log batches) (read_up_to 0 log) h' in
      let silent : rest ≡ (raised wait_timed_out, h') =
        rw (read_up_to_start log, full) (deaf limit log batches h' (omega (arith, full))) in
      ap (λ p. p.0) (found_none (read decode utf8 log h).0 h' rest n ∙ silent)
