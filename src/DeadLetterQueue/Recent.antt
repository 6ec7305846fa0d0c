-- ===== src/DeadLetterQueue/Recent.antt =====
-- The queue keeps the most recent entries.
use mathlib.Core.List.{append-nil, append_assoc}
use agamemnon.Base.{
  ℕ, zero, suc, ◌-◌, ◌≤◌, ◌<◌, ◌≡◌, refl, ap, ◌∙◌, List, [], ◌∷◌, ◌++◌, some, arith, length, drop,
  length-append, length-drop, drop-append_le, dec_lt,
}
use agamemnon.DeadLetterQueue.{Entry, DeadLetterQueue, init, push, push_all, drain, size}

-- The last `n` entries of a list.
abbrev pub last_entries : ℕ → List Entry → List Entry
last_entries n es = drop (length es - n) es

drop-nil : (n : ℕ) → drop {A = Entry} n [] ≡ []
drop-nil zero = refl
drop-nil (suc n) = refl

-- Below the length of the list, one more dropped entry is the head of what was left.
drop_tail :
    (n : ℕ) (es : List Entry) → n < length es → (x : Entry) × (drop n es ≡ x ∷ drop (suc n) es)
drop_tail n [] h = absurd (omega arith)
drop_tail zero (e ∷ es) h = (e, refl)
drop_tail (suc n) (e ∷ es) h = drop_tail n es (omega arith)

push_room :
    (c : ℕ) (q : List Entry) (e : Entry)
    → length q < c
    → push e (record { capacity = c; queue = q })
      ≡ some (record { capacity = c; queue = q ++ (e ∷ []) })
unfolding push
push_room c q e h = ground arith

push_full :
    (c : ℕ) (x : Entry) (rest : List Entry) (e : Entry)
    → c ≤ length (x ∷ rest)
    → push e (record { capacity = c; queue = x ∷ rest })
      ≡ some (record { capacity = c; queue = rest ++ (e ∷ []) })
unfolding push
push_full c x rest e h = ground arith

-- One push onto a queue that holds the last entries of `es`.
push-last_entries :
    (c : ℕ) (es : List Entry) (e : Entry)
    → push e (record { capacity = suc c; queue = last_entries (suc c) es })
      ≡ some (record { capacity = suc c; queue = last_entries (suc c) (es ++ (e ∷ [])) })
push-last_entries c es e = elim (dec_lt (length es) (suc c)) [
  | yes room ↦
      let none_dropped : length es - suc c ≡ 0 = omega arith in
      let still_none : length (es ++ (e ∷ [])) - suc c ≡ 0 =
        omega (arith, length-append es (e ∷ [])) in
      rw (none_dropped, still_none) (push_room (suc c) es e room)
  | no full ↦
      let k : ℕ = length es - suc c in
      let (x, shape) = drop_tail k es (omega arith) in
      let one_more : length (es ++ (e ∷ [])) - suc c ≡ suc k =
        omega (arith, length-append es (e ∷ [])) in
      rw (one_more, drop-append_le (suc k) es (e ∷ []) (omega arith), shape)
        (push_full (suc c) x (drop (suc k) es) e (omega (arith, length-drop (suc k) es)))
]

push_all-last_entries :
    (c : ℕ) (es seen : List Entry)
    → push_all es (record { capacity = suc c; queue = last_entries (suc c) seen })
      ≡ some (record { capacity = suc c; queue = last_entries (suc c) (seen ++ es) })
unfolding push_all
push_all-last_entries c [] seen = rw append-nil
push_all-last_entries c (e ∷ es) seen =
    rw (push-last_entries c seen e, push_all)
      (push_all-last_entries c es (seen ++ (e ∷ []))
        ∙ ap
            (λ (l : List Entry). some (record { capacity = suc c; queue = last_entries (suc c) l }))
            (append_assoc seen (e ∷ []) es))

-- A queue of positive capacity keeps the most recent messages. After any pushes onto a new queue
-- none has failed, draining gives the last `capacity` entries in the order in which they came, all
-- of them if they are fewer, and what is left is empty.
pub push_all-drain :
    (c : ℕ) (es : List Entry)
    → (q : DeadLetterQueue) × (push_all es (init (suc c)) ≡ some q)
      × ((drain q).1 ≡ last_entries (suc c) es)
      × (size (drain q).0 ≡ 0)
      × (size q ≤ suc c)
unfolding init drain size
push_all-drain c es = (
  record { capacity = suc c; queue = last_entries (suc c) es },
  rw (drop-nil (0 - suc c)) at (push_all-last_entries c es []),
  refl,
  refl,
  omega (arith, length-drop (length es - suc c) es),
)
