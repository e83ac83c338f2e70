-- ===== src/AppServer/Waiters.antt =====
-- The waiters of the requests: each id once, and no slot with another request's answer.
use codex_waiting_plgin.AppServer.{
  Pending, remove, answer, fail_all, key_of, slot_of, exit_error, object, offer,
}
use codex_waiting_plgin.Prelude.{
  some, ◌≤◌, inl, ◌∷◌, none, refl, Option, inr, ◌<◌, ◌≡◌, ℕ, [], arith, nat_eq-cases,
}
use codex_waiting_plgin.Protocol.Json.{get_member, Json}

abbrev pub id_key : Option Json → Option ℕ
id_key none = none
id_key (some id) = key_of id

-- The id of a message, as `_pending` finds it.
abbrev pub reply_id : Json → Option ℕ
reply_id (object m) = id_key (get_member "id" m)
reply_id v = none

abbrev pub Answers : ℕ → Option Json → Type 0
Answers id none = Unit {0}
Answers id (some v) = reply_id v ≡ some id

-- The ids fall, from below `n`, and every answer is one to its request.
abbrev pub Waiters : ℕ → Pending → Type 0
Waiters n [] = Unit {0}
Waiters n ((id, slot) ∷ rest) = (id < n) × Answers id slot × Waiters id rest

pub Waiters-mono : (n m : ℕ) (p : Pending) → n ≤ m → Waiters n p → Waiters m p
Waiters-mono n m [] le w = tt
Waiters-mono n m ((id, slot) ∷ rest) le w = (omega (arith, w.0), w.1, w.2)

offer-Answers :
    (id : ℕ) (v : Json) (slot : Option Json)
    → reply_id v ≡ some id
    → Answers id slot
    → Answers id (offer v slot)
offer-Answers id v none e a = e
offer-Answers id v (some old) e a = a

pub fail_all-Waiters : (n : ℕ) (p : Pending) → Waiters n p → Waiters n (fail_all p)
fail_all-Waiters n [] w = tt
fail_all-Waiters n ((id, slot) ∷ rest) w =
    (w.0, offer-Answers id (exit_error id) slot refl w.1, fail_all-Waiters id rest w.2)

pub answer-Waiters :
    (n k : ℕ) (v : Json) (p : Pending)
    → reply_id v ≡ some k
    → Waiters n p
    → Waiters n (answer k v p)
answer-Waiters n k v [] e w = tt
answer-Waiters n k v ((id, slot) ∷ rest) e w = elim (nat_eq-cases id k) [
  | inl (eq, same) ↦ rw eq (w.0, offer-Answers id v slot (rw same e) w.1, w.2)
  | inr ne ↦ rw ne (w.0, w.1, answer-Waiters id k v rest e w.2)
]

pub remove-Waiters : (n k : ℕ) (p : Pending) → Waiters n p → Waiters n (remove k p)
remove-Waiters n k [] w = tt
remove-Waiters n k ((id, slot) ∷ rest) w = elim (nat_eq-cases id k) [
  | inl (eq, same) ↦ rw eq (Waiters-mono id n rest (omega (arith, w.0)) w.2)
  | inr ne ↦ rw ne (w.0, w.1, remove-Waiters id k rest w.2)
]

-- What the wait finds is an answer to the request.
pub slot_of-Answers : (n k : ℕ) (p : Pending) → Waiters n p → Answers k (slot_of k p)
slot_of-Answers n k [] w = tt
slot_of-Answers n k ((id, slot) ∷ rest) w = elim (nat_eq-cases id k) [
  | inl (eq, same) ↦ rw eq (rw same at w.1)
  | inr ne ↦ rw ne (slot_of-Answers id k rest w.2)
]
