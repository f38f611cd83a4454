-- ===== src/Config/Tilde.antt =====
-- src/config.rs: when the expansion of `~` fails, and what it leaves alone.
use syncgdrive.Base.{
  Text, codes, Option, none, Option-cases, inl, inr, List, [], ◌∷◌, ◌++◌, ◌≡◌, ◌↔◌, refl, ap, ◌∙◌,
  arith,
}
use syncgdrive.Config.{AppConfig, SyncPair}
use syncgdrive.Config.Load.{expand_tilde, expand_pairs, expand_tildes}

expand_tilde_bare : (home : Option Text) → expand_tilde home (codes "~") ≡ none
unfolding expand_tilde
expand_tilde_bare home = refl

expand_tilde-eq-none : (home : Option Text) (s : Text) → expand_tilde home s ≡ none → s ≡ codes "~"
unfolding expand_tilde
expand_tilde-eq-none home [] h = ground arith
expand_tilde-eq-none home (a ∷ []) h = ground arith
expand_tilde-eq-none home (a ∷ b ∷ s) h = ground arith

abbrev pub HasBareTilde : List SyncPair → Type 0
HasBareTilde ps =
    (before after : List SyncPair) × (p : SyncPair) × (ps ≡ before ++ p ∷ after)
    × (p.local_path ≡ codes "~")

expand_pairs-panics :
    (home : Option Text) (ps : List SyncPair) → expand_pairs home ps ≡ none → HasBareTilde ps
unfolding expand_pairs
expand_pairs-panics home [] h = absurd (ground arith)
expand_pairs-panics home (p ∷ ps) h = elim (Option-cases (expand_tilde home p.local_path)) [
  | inl e ↦ ([], ps, p, refl, expand_tilde-eq-none home p.local_path e)
  | inr (path, e) ↦
      let (before, after, q, same, bare) = expand_pairs-panics home ps (ground arith) in
      (p ∷ before, after, q, ap (λ l. p ∷ l) same, bare)
]

bare-expand_pairs :
    (home : Option Text) (before after : List SyncPair) (p : SyncPair)
    → p.local_path ≡ codes "~"
    → expand_pairs home (before ++ p ∷ after) ≡ none
unfolding expand_pairs
bare-expand_pairs home [] after p bare =
    rw (bare, expand_pairs) (ground (arith, expand_tilde_bare home))
bare-expand_pairs home (q ∷ before) after p bare =
    ground (arith, bare-expand_pairs home before after p bare)

-- The expansion panics exactly when the path of some pair is `~` alone.
pub expand_tildes-panics_iff :
    (home : Option Text) (cfg : AppConfig)
    → (expand_tildes home cfg ≡ none) ↔ HasBareTilde cfg.sync_pairs
unfolding expand_tildes
expand_tildes-panics_iff home cfg = (
  λ h. expand_pairs-panics home cfg.sync_pairs (ground arith),
  λ (before, after, p, same, bare).
      let none_left : expand_pairs home cfg.sync_pairs ≡ none =
        ap (expand_pairs home) same ∙ bare-expand_pairs home before after p bare in
      ground arith,
)
