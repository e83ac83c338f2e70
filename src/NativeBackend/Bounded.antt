-- ===== src/NativeBackend/Bounded.antt =====
-- The event log of limited length.
use codex_waiting_plgin.Prelude.{
  suc, append_assoc, ℕ, [], ◌∙◌, refl, ◌++◌, length-append, List, ◌≤◌, arith, zero, ◌∷◌, append-nil,
  ◌+◌, ◌≡◌, ◌<◌, length, sym,
}
use codex_waiting_plgin.NativeBackend.{push_all, drop_first, drop, Event, push}

-- The logs that polls see, when some events are pushed before each of them.
abbrev pub seen_logs : ℕ → List Event → List (List Event) → List (List Event)
seen_logs limit log [] = []
seen_logs limit log (es ∷ batches) =
    push_all limit log es ∷ seen_logs limit (push_all limit log es) batches

length-drop_first :
    (log : List Event) (e : Event) → length (drop_first (log ++ e ∷ [])) ≡ length log
length-drop_first [] e = refl
length-drop_first (x ∷ log) e = omega (arith, length-append log (e ∷ []))

push_bound :
    (limit : ℕ) (log : List Event) (e : Event)
    → length log ≤ limit
    → length (push limit log e) ≤ limit
unfolding push
push_bound limit log e h = ground (arith, length-append log (e ∷ []), length-drop_first log e)

pub push_all_bound :
    (limit : ℕ) (log es : List Event) → length log ≤ limit → length (push_all limit log es) ≤ limit
unfolding push_all
push_all_bound limit log [] h = h
push_all_bound limit log (e ∷ es) h =
    push_all_bound limit (push limit log e) es (push_bound limit log e h)

push_appends :
    (limit : ℕ) (log : List Event) (e : Event)
    → length log < limit
    → push limit log e ≡ log ++ e ∷ []
unfolding push
push_appends limit log e h = ground arith

-- While the log has room for them, events are appended.
pub push_all_appends :
    (limit : ℕ) (log es : List Event)
    → length log + length es ≤ limit
    → push_all limit log es ≡ log ++ es
unfolding push_all
push_all_appends limit log [] h = sym (append-nil log)
push_all_appends limit log (e ∷ es) h = rw (push_appends limit log e (omega (arith, h))) (
    push_all_appends limit (log ++ e ∷ []) es (omega (arith, h, length-append log (e ∷ [])))
    ∙ append_assoc log (e ∷ []) es)

pub drop-append : (xs ys : List Event) → drop (length xs) (xs ++ ys) ≡ ys
drop-append [] ys = refl
drop-append (x ∷ xs) ys = drop-append xs ys

pub drop_past : (n : ℕ) (xs : List Event) → length xs ≤ n → drop n xs ≡ []
drop_past zero [] h = refl
drop_past zero (x ∷ xs) h = absurd (omega (arith, h))
drop_past (suc n) [] h = refl
drop_past (suc n) (x ∷ xs) h = drop_past n xs (omega (arith, h))
