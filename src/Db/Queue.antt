-- ===== src/Db/Queue.antt =====
-- src/db.rs: the offline queue is first in, first out, under identifiers that are never used twice.
use syncgdrive.Base.{
  ℕ, ◌+◌, ◌≤◌, ◌<◌, ◌≡◌, refl, Text, Bool, not, Option, List, [], ◌∷◌, ◌++◌, keep, Bool-cases, inl,
  inr, arith, ◌==◌,
}
use syncgdrive.Db.{OfflineTask, QueueTable, enqueue}

-- The identifiers rise from above `lo`, and none is above `hi`.
abbrev pub Rising : ℕ → List OfflineTask → ℕ → Type 0
Rising lo [] hi = lo ≤ hi
Rising lo (t ∷ ts) hi = (lo < t.id) × Rising t.id ts hi

abbrev pub IsQueue : QueueTable → Type 0
IsQueue q = Rising 0 q.rows q.sequence

Rising-append :
    (lo hi : ℕ) (ts : List OfflineTask) (t : OfflineTask)
    → Rising lo ts hi
    → hi < t.id
    → Rising lo (ts ++ t ∷ []) t.id
Rising-append lo hi [] t h lt = omega arith
Rising-append lo hi (u ∷ us) t (a, h) lt = (a, Rising-append u.id hi us t h lt)

Rising-weaken :
    (lo lo' hi : ℕ) (ts : List OfflineTask) → lo ≤ lo' → Rising lo' ts hi → Rising lo ts hi
Rising-weaken lo lo' hi [] le h = omega arith
Rising-weaken lo lo' hi (t ∷ ts) le (a, h) = (omega arith, h)

pub Rising-keep :
    (p : OfflineTask → Bool) (lo hi : ℕ) (ts : List OfflineTask)
    → Rising lo ts hi
    → Rising lo (keep p ts) hi
unfolding keep
Rising-keep p lo hi [] h = h
Rising-keep p lo hi (t ∷ ts) (a, h) = elim (Bool-cases (p t)) [
  | inl kept ↦ rw (kept, keep) (a, Rising-keep p t.id hi ts h)
  | inr gone ↦
      rw (gone, keep) (Rising-weaken lo t.id hi _ (omega arith) (Rising-keep p t.id hi ts h))
]

pub append-IsQueue :
    (rows : List OfflineTask) (sequence : ℕ) (t : OfflineTask)
    → IsQueue (record { rows = rows; sequence = sequence })
    → t.id ≡ sequence + 1
    → IsQueue (record { rows = rows ++ t ∷ []; sequence = sequence + 1 })
append-IsQueue rows sequence t h e = rw (← e) (Rising-append 0 sequence rows t h (omega arith))

pub enqueue-IsQueue :
    (action path : Text) (extra : Option Text) (now : ℕ) (q : QueueTable)
    → IsQueue q
    → IsQueue (enqueue action path extra now q).1
unfolding enqueue
enqueue-IsQueue action path extra now q h = Rising-append 0 q.sequence q.rows _ h (omega arith)

keep_later :
    (id lo hi : ℕ) (ts : List OfflineTask)
    → id ≤ lo
    → Rising lo ts hi
    → keep (λ u. not (u.id == id)) ts ≡ ts
unfolding keep
keep_later id lo hi [] le h = refl
keep_later id lo hi (t ∷ ts) le (a, h) = ground (arith, keep_later id t.id hi ts (omega arith) h)

Rising-lt :
    (lo hi : ℕ) (xs : List OfflineTask) (t : OfflineTask) (ys : List OfflineTask)
    → Rising lo (xs ++ t ∷ ys) hi
    → lo < t.id
Rising-lt lo hi [] t ys (a, h) = a
Rising-lt lo hi (x ∷ xs) t ys (a, h) = omega (arith, Rising-lt x.id hi xs t ys h)

-- Among rising identifiers a row is removed by its own, and no other row goes with it.
pub keep-middle :
    (lo hi : ℕ) (xs : List OfflineTask) (t : OfflineTask) (ys : List OfflineTask)
    → Rising lo (xs ++ t ∷ ys) hi
    → keep (λ u. not (u.id == t.id)) (xs ++ t ∷ ys) ≡ xs ++ ys
unfolding keep
keep-middle lo hi [] t ys (a, h) = ground (arith, keep_later t.id t.id hi ys (omega arith) h)
keep-middle lo hi (x ∷ xs) t ys (a, h) =
    ground (arith, Rising-lt x.id hi xs t ys h, keep-middle x.id hi xs t ys h)

pub Rising-remove :
    (lo hi : ℕ) (xs : List OfflineTask) (t : OfflineTask) (ys : List OfflineTask)
    → Rising lo (xs ++ t ∷ ys) hi
    → Rising lo (xs ++ ys) hi
Rising-remove lo hi xs t ys h =
    rw (← keep-middle lo hi xs t ys h)
      (Rising-keep (λ u. not (u.id == t.id)) lo hi (xs ++ t ∷ ys) h)
