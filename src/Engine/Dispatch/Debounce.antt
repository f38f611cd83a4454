-- ===== src/Engine/Dispatch/Debounce.antt =====
-- src/engine/mod.rs: which paths a tick of the dispatcher releases.
use mathlib.Core.Path.{subst}
use mathlib.Core.List.{append_assoc, append-nil}
use syncgdrive.Engine.Tasks.{Task, sync_file, send}
use syncgdrive.Base.{
  ℕ, ◌+◌, ◌≤◌, ◌<◌, sym, ◌∙◌, ◌++◌, length, zero, suc, ◌≡◌, refl, ap, Text, text_eq_refl, Bool,
  true, false, ◌||◌, Bool-cases, inl, inr, List, [], ◌∷◌, keep, All, arith,
}
use syncgdrive.Paths.{FilePath}
use syncgdrive.Engine.Dispatch.{
  Waiting, Dispatcher, Settings, path_eq, parts_eq, remove_pending, is_ready, release, release_all,
  on_tick,
}

parts_eq_refl : (ss : List Text) → parts_eq ss ss ≡ true
unfolding parts_eq
parts_eq_refl [] = refl
parts_eq_refl (s ∷ ss) = ground (arith, text_eq_refl s, parts_eq_refl ss)

path_eq_refl : (p : FilePath) → path_eq p p ≡ true
unfolding path_eq
path_eq_refl p = ground (arith, parts_eq_refl p.parts)

-- The path is that of one of these.
pub is_among : FilePath → List Waiting → Bool
is_among p [] = false
is_among p (w ∷ ws) = path_eq p w.path || is_among p ws

is_among_here : (w : Waiting) (ws : List Waiting) → is_among w.path (w ∷ ws) ≡ true
unfolding is_among
is_among_here w ws = ground (arith, path_eq_refl w.path)

keep_here :
    (p : Waiting → Bool) (w : Waiting) (ws : List Waiting)
    → p w ≡ true
    → keep p (w ∷ ws) ≡ w ∷ keep p ws
unfolding keep
keep_here p w ws e = ground (arith, e)

keep_there :
    (p : Waiting → Bool) (w : Waiting) (ws : List Waiting)
    → p w ≡ false
    → keep p (w ∷ ws) ≡ keep p ws
unfolding keep
keep_there p w ws e = ground (arith, e)

send-room :
    (task : Task) (sent : List Task) (room : ℕ) (full : Bool)
    → 0 < room
    → let (delivered, ch) = send task (record { sent = sent; room = room; is_full = full }) in
      (delivered ≡ true) × (ch.sent ≡ sent ++ task ∷ []) × (room ≡ ch.room + 1)
unfolding send
send-room task sent zero full h = absurd (omega (arith, h))
send-room task sent (suc room) full h = (refl, refl, omega arith)

module _ (cfg : Settings) where
  release-pending :
      (offline : Bool) (now : ℕ) (path : FilePath) (s : Dispatcher)
      → (release cfg offline now path s).1.pending ≡ remove_pending path s.pending
  unfolding release
  release-pending true now path s = ground arith
  release-pending false now path s = ground arith

  -- Every path that is ready is still to be released.
  abbrev Covered : ℕ → List Waiting → List Waiting → Type 0
  Covered now ready pending =
      All (λ w. is_ready cfg now w ≡ true → is_among w.path ready ≡ true) pending

  Covered-remove_pending :
      (now : ℕ) (w : Waiting) (ready pending : List Waiting)
      → Covered now (w ∷ ready) pending
      → Covered now ready (remove_pending w.path pending)
  unfolding remove_pending keep is_among
  Covered-remove_pending now w ready [] h = tt
  Covered-remove_pending now w ready (v ∷ pending) (h, hs) =
      elim (Bool-cases (path_eq v.path w.path)) [
        | inl same ↦ rw (same, keep) (Covered-remove_pending now w ready pending hs)
        | inr other ↦
            rw (other, keep)
              ((λ r. ground (arith, h r, other)), Covered-remove_pending now w ready pending hs)
      ]

  Covered-nil :
      (now : ℕ) (pending : List Waiting)
      → Covered now [] pending
      → All (λ w. is_ready cfg now w ≡ false) pending
  unfolding is_among
  Covered-nil now [] h = tt
  Covered-nil now (w ∷ ws) (h, hs) = (ground (arith, h), Covered-nil now ws hs)

  release_all-pending :
      (offline : Bool) (now : ℕ) (ready : List Waiting) (s : Dispatcher)
      → Covered now ready s.pending
      → (release_all cfg offline now ready s).0 ≡ true
      → All (λ w. is_ready cfg now w ≡ false) (release_all cfg offline now ready s).1.pending
  unfolding release_all
  release_all-pending offline now [] s h e = Covered-nil now s.pending h
  release_all-pending offline now (w ∷ ready) s h e =
      elim (Bool-cases (release cfg offline now w.path s).0) [
        | inl alive ↦
            rw (alive, release_all)
              (release_all-pending offline now ready (release cfg offline now w.path s).1
                (rw (release-pending offline now w.path s)
                  (Covered-remove_pending now w ready s.pending h))
                (ground (arith, e, alive)))
        | inr dead ↦ absurd (ground (arith, e, dead))
      ]

  Covered-cons :
      (now : ℕ) (w : Waiting) (ready pending : List Waiting)
      → Covered now ready pending
      → Covered now (w ∷ ready) pending
  unfolding is_among
  Covered-cons now w ready [] h = tt
  Covered-cons now w ready (v ∷ pending) (h, hs) =
      ((λ r. ground (arith, h r)), Covered-cons now w ready pending hs)

  Covered-keep :
      (now : ℕ) (pending : List Waiting) → Covered now (keep (is_ready cfg now) pending) pending
  Covered-keep now [] = tt
  Covered-keep now (w ∷ ws) =
      let rest = keep (is_ready cfg now) ws in
      elim (Bool-cases (is_ready cfg now w)) [
        | inl due ↦
            subst (λ r. Covered now r (w ∷ ws)) (sym (keep_here (is_ready cfg now) w ws due))
              ((λ r. is_among_here w rest), Covered-cons now w rest ws (Covered-keep now ws))
        | inr early ↦
            subst (λ r. Covered now r (w ∷ ws)) (sym (keep_there (is_ready cfg now) w ws early))
              ((λ r. absurd (ground (arith, r, early))), Covered-keep now ws)
      ]

  -- The tasks of the released paths.
  abbrev pub syncs : List Waiting → List Task
  syncs [] = []
  syncs (w ∷ ws) = sync_file w.path ∷ syncs ws

  release-sends :
      (now : ℕ) (path : FilePath) (s : Dispatcher)
      → 0 < s.channel.room
      → ((release cfg false now path s).0 ≡ true)
        × ((release cfg false now path s).1.channel.sent ≡ s.channel.sent ++ sync_file path ∷ [])
        × (s.channel.room ≡ (release cfg false now path s).1.channel.room + 1)
  unfolding release
  release-sends now path s room =
      send-room (sync_file path) s.channel.sent s.channel.room s.channel.is_full room

  release_all-sends :
      (now : ℕ) (ready : List Waiting) (s : Dispatcher)
      → length ready ≤ s.channel.room
      → ((release_all cfg false now ready s).0 ≡ true)
        × ((release_all cfg false now ready s).1.channel.sent ≡ s.channel.sent ++ syncs ready)
  unfolding release_all
  release_all-sends now [] s room = (refl, sym (append-nil s.channel.sent))
  release_all-sends now (w ∷ ready) s room =
      let (alive, sent, left) = release-sends now w.path s (omega arith) in
      let s' = (release cfg false now w.path s).1 in
      let (alive', sent') = release_all-sends now ready s' (omega (arith, left)) in
      rw (alive, release_all)
        (
          alive',
          sent'
              ∙ ap (λ t. t ++ syncs ready) sent
              ∙ append_assoc s.channel.sent (sync_file w.path ∷ []) (syncs ready),
        )

  -- A tick, online and with room in the channel, sends one task for each path that has waited for
  -- the debounce time since its last change, in the order of the map, and no other task; then no
  -- path that has waited so long is left.
  pub on_tick-sends :
      (now : ℕ) (s : Dispatcher)
      → length (keep (is_ready cfg now) s.pending) ≤ s.channel.room
      → ((on_tick cfg false now s).1.channel.sent
          ≡ s.channel.sent ++ syncs (keep (is_ready cfg now) s.pending))
        × All (λ w. is_ready cfg now w ≡ false) (on_tick cfg false now s).1.pending
  unfolding on_tick
  on_tick-sends now s room =
      let (alive, sent) = release_all-sends now (keep (is_ready cfg now) s.pending) s room in
      (sent, release_all-pending false now _ s (Covered-keep now s.pending) alive)
