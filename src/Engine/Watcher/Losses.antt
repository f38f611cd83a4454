-- ===== src/Engine/Watcher/Losses.antt =====
-- src/engine/watcher.rs: the events, the full channel and the flag.
use syncgdrive.Base.{
  ℕ, Bool, true, false, Bool-cases, ltb, length, Option, none, some, Option-cases, List, [], ◌∷◌,
  ◌++◌, append-nil, append_assoc, arith, ◌≡◌, refl, sym, ap, ◌∙◌, inl, inr,
}
use syncgdrive.Paths.{FilePath}
use syncgdrive.Engine.Dispatch.{WatchEvent, modified, deleted, renamed}
use syncgdrive.Engine.Watcher.{
  EventKind, close_write, create, remove, rename_both, rename_from, rename_to, modify_data,
  other_kind, Event, Watcher, translate, try_send, on_event, receive,
}

-- What happens at the channel: a native event comes in, or the dispatcher takes one out.
pub data Happening : Type 0 where
  comes : Option Event → Happening
  is_taken : Happening

abbrev pub happen : Happening → Watcher → Watcher
happen (comes e) w = on_event e w
happen is_taken w = receive w

abbrev pub happen_all : List Happening → Watcher → Watcher
happen_all [] w = w
happen_all (h ∷ hs) w = happen_all hs (happen h w)

-- The events that a native one stands for.
abbrev pub translated : Option Event → List WatchEvent
translated none = []
translated (some e) = elim (translate e.kind e.paths) [ none ↦ [] | some ev ↦ ev ∷ [] ]

abbrev pub all_translated : List Happening → List WatchEvent
all_translated [] = []
all_translated (comes e ∷ hs) = translated e ++ all_translated hs
all_translated (is_taken ∷ hs) = all_translated hs

-- What a native event says of the paths: each that is there now, or is gone.
abbrev pub native_effects : EventKind → List FilePath → List (FilePath × Bool)
native_effects rename_both (p ∷ q ∷ ps) = (p, false) ∷ (q, true) ∷ []
native_effects rename_both _ = []
native_effects other_kind _ = []
native_effects _ [] = []
native_effects remove (p ∷ ps) = (p, false) ∷ []
native_effects rename_from (p ∷ ps) = (p, false) ∷ []
native_effects _ (p ∷ ps) = (p, true) ∷ []

abbrev pub all_native_effects : List Happening → List (FilePath × Bool)
all_native_effects [] = []
all_native_effects (comes none ∷ hs) = all_native_effects hs
all_native_effects (comes (some e) ∷ hs) = native_effects e.kind e.paths ++ all_native_effects hs
all_native_effects (is_taken ∷ hs) = all_native_effects hs

-- What the events of the program say.
abbrev effects : WatchEvent → List (FilePath × Bool)
effects (modified p) = (p, true) ∷ []
effects (deleted p) = (p, false) ∷ []
effects (renamed p q) = (p, false) ∷ (q, true) ∷ []

abbrev pub all_effects : List WatchEvent → List (FilePath × Bool)
all_effects [] = []
all_effects (ev ∷ evs) = effects ev ++ all_effects evs

all_effects-append :
    (evs fs : List WatchEvent) → all_effects (evs ++ fs) ≡ all_effects evs ++ all_effects fs
all_effects-append [] fs = refl
all_effects-append (ev ∷ evs) fs =
    ap (λ xs. effects ev ++ xs) (all_effects-append evs fs)
    ∙ sym (append_assoc (effects ev) (all_effects evs) (all_effects fs))

translate-effects :
    (kind : EventKind) (paths : List FilePath)
    → all_effects (translated (some (record { kind = kind; paths = paths })))
      ≡ native_effects kind paths
unfolding translate
translate-effects close_write [] = refl
translate-effects close_write (p ∷ ps) = refl
translate-effects create [] = refl
translate-effects create (p ∷ ps) = refl
translate-effects remove [] = refl
translate-effects remove (p ∷ ps) = refl
translate-effects rename_both [] = refl
translate-effects rename_both (p ∷ []) = refl
translate-effects rename_both (p ∷ q ∷ ps) = refl
translate-effects rename_from [] = refl
translate-effects rename_from (p ∷ ps) = refl
translate-effects rename_to [] = refl
translate-effects rename_to (p ∷ ps) = refl
translate-effects modify_data [] = refl
translate-effects modify_data (p ∷ ps) = refl
translate-effects other_kind paths = refl

all_translated-effects :
    (hs : List Happening) → all_effects (all_translated hs) ≡ all_native_effects hs
all_translated-effects [] = refl
all_translated-effects (comes none ∷ hs) = all_translated-effects hs
all_translated-effects (comes (some e) ∷ hs) =
    all_effects-append (translated (some e)) (all_translated hs)
    ∙ ap (λ xs. xs ++ all_effects (all_translated hs)) (translate-effects e.kind e.paths)
    ∙ ap (λ xs. native_effects e.kind e.paths ++ xs) (all_translated-effects hs)
all_translated-effects (is_taken ∷ hs) = all_translated-effects hs

abbrev seen : Watcher → List WatchEvent
seen w = w.received ++ w.queued

-- A happening keeps what was seen, and adds its events or raises the flag.
on_event-seen :
    (e : Option Event) (w : Watcher)
    → (on_event e w).overflow ≡ false
    → (w.overflow ≡ false) × (seen (on_event e w) ≡ seen w ++ translated e)
unfolding on_event try_send
on_event-seen none w = λ calm. (calm, sym (append-nil (seen w)))
on_event-seen (some e) w = elim (Option-cases (translate e.kind e.paths)) [
  | inl nothing ↦ rw (on_event, translated, nothing) (λ calm. (calm, sym (append-nil (seen w))))
  | inr (ev, there) ↦ elim (Bool-cases (ltb (length w.queued) w.capacity)) [
    | inl room ↦
        rw (on_event, translated, there, try_send, room)
          (λ calm. (calm, sym (append_assoc w.received w.queued (ev ∷ []))))
    | inr full ↦
        rw (on_event, translated, there, try_send, full) (λ calm. absurd (ground (arith, calm)))
  ]
]

receive-record :
    (n : ℕ) (queued received : List WatchEvent) (overflow : Bool)
    → let w : Watcher = record {
      capacity = n;
      queued = queued;
      received = received;
      overflow = overflow;
    } in
      (seen (receive w) ≡ received ++ queued) × ((receive w).overflow ≡ overflow)
unfolding receive
receive-record n [] received overflow = (refl, refl)
receive-record n (ev ∷ evs) received overflow = (append_assoc received (ev ∷ []) evs, refl)

receive-seen : (w : Watcher) → (seen (receive w) ≡ seen w) × ((receive w).overflow ≡ w.overflow)
receive-seen w = receive-record w.capacity w.queued w.received w.overflow

-- What was seen grows by the events that the native ones become.
seen_all :
    (hs : List Happening) (w : Watcher)
    → (happen_all hs w).overflow ≡ false
    → (w.overflow ≡ false)
      × ((happen_all hs w).received ++ (happen_all hs w).queued
          ≡ w.received ++ w.queued ++ all_translated hs)
seen_all [] w calm = (calm, sym (append-nil (seen w)))
seen_all (comes e ∷ hs) w calm =
    let (calm', rest) = seen_all hs (on_event e w) calm in
    let (before, first) = on_event-seen e w calm' in
    (
      before,
      rest
          ∙ ap (λ s. s ++ all_translated hs) first
          ∙ append_assoc (seen w) (translated e) (all_translated hs),
    )
seen_all (is_taken ∷ hs) w calm =
    let (calm', rest) = seen_all hs (receive w) calm in
    let (same, flag) = receive-seen w in
    (sym flag ∙ calm', rest ∙ ap (λ s. s ++ all_translated hs) same)

-- Unless the flag is raised at the end, it was down at the start, and the dispatcher has received,
-- in order and with what still waits, what the native events became, however the two were
-- interleaved; and these say of each path exactly what the native events said, in order: that it
-- is there (written, created, renamed to) or is gone (removed, renamed from).
pub happen_all_complete :
    (hs : List Happening) (w : Watcher)
    → (happen_all hs w).overflow ≡ false
    → (w.overflow ≡ false)
      × ((happen_all hs w).received ++ (happen_all hs w).queued
          ≡ w.received ++ w.queued ++ all_translated hs)
      × (all_effects ((happen_all hs w).received ++ (happen_all hs w).queued)
          ≡ all_effects (w.received ++ w.queued) ++ all_native_effects hs)
happen_all_complete hs w calm =
    let (before, all) = seen_all hs w calm in
    (
      before,
      all,
      ap all_effects all
          ∙ all_effects-append (seen w) (all_translated hs)
          ∙ ap (λ xs. all_effects (seen w) ++ xs) (all_translated-effects hs),
    )
