-- ===== src/PathDisplay/Whole.antt =====
-- src/utils/path_display.rs: the two parts of a displayed path against the path.
use mathlib.Core.Path.{subst}
use mathlib.Core.List.{append_assoc, append-nil}
use syncgdrive.Base.{
  ℕ, suc, ◌≤◌, ◌≡◌, refl, ap, ◌∙◌, sym, Text, Bool, true, false, Bool-cases, inl, inr, List, [],
  ◌∷◌, ◌++◌, length, ◌==◌, if◌then◌else◌, arith,
}
use syncgdrive.Paths.{slash, split, join_slash, init_parts}
use syncgdrive.PathDisplay.{
  ends_with_slash, trim_end, last_or_empty, mark, folder_str, display_parts, split_path_display,
}

join_slash-cons :
    (c : ℕ) (s : Text) (ss : List Text) → join_slash ((c ∷ s) ∷ ss) ≡ c ∷ join_slash (s ∷ ss)
unfolding join_slash
join_slash-cons c s [] = refl
join_slash-cons c s (t ∷ ts) = refl

split_cons : (s : Text) → (t : Text) × (ts : List Text) × (split s ≡ t ∷ ts)
unfolding split
split_cons [] = ([], [], refl)
split_cons (c ∷ s) =
    let (t, ts, e) = split_cons s in
    elim (Bool-cases (c == slash)) [
      | inl at ↦ ([], t ∷ ts, ground (arith, at, e))
      | inr not_at ↦ (c ∷ t, ts, ground (arith, not_at, e))
    ]

join_slash-split : (s : Text) → join_slash (split s) ≡ s
unfolding split join_slash
join_slash-split [] = refl
join_slash-split (c ∷ s) =
    let (t, ts, e) = split_cons s in ground (arith, e, join_slash-split s, join_slash-cons c t ts)

join_slash-last :
    (p q : Text) (ps : List Text)
    → join_slash (init_parts (p ∷ q ∷ ps)) ++ slash ∷ last_or_empty (p ∷ q ∷ ps)
      ≡ join_slash (p ∷ q ∷ ps)
unfolding join_slash last_or_empty
join_slash-last p q [] = refl
join_slash-last p q (r ∷ ps) =
    append_assoc p (slash ∷ join_slash (init_parts (q ∷ r ∷ ps)))
      (slash ∷ last_or_empty (q ∷ r ∷ ps))
    ∙ ap (λ t. p ++ slash ∷ t) (join_slash-last q r ps)

length-init_parts :
    (p q : Text) (ps : List Text) → length (init_parts (p ∷ q ∷ ps)) ≡ length (q ∷ ps)
length-init_parts p q [] = refl
length-init_parts p q (r ∷ ps) = ap suc (length-init_parts q r ps)

-- The separator that marks a folder.
abbrev pub ending : Bool → Text
ending is_dir = if is_dir then slash ∷ [] else []

mark-append : (is_dir : Bool) (name : Text) → mark is_dir name ≡ name ++ ending is_dir
mark-append true name = refl
mark-append false name = sym (append-nil name)

folder_str-short :
    (p q : Text) (ps : List Text)
    → length (p ∷ q ∷ ps) ≤ 4
    → folder_str (init_parts (p ∷ q ∷ ps)) ≡ join_slash (init_parts (p ∷ q ∷ ps)) ++ slash ∷ []
unfolding folder_str
folder_str-short p q ps le = ground (arith, le, length-init_parts p q ps)

display_parts-whole :
    (is_dir : Bool) (p : Text) (ps : List Text)
    → length (p ∷ ps) ≤ 4
    → (display_parts is_dir (p ∷ ps)).0 ++ (display_parts is_dir (p ∷ ps)).1
      ≡ join_slash (p ∷ ps) ++ ending is_dir
unfolding display_parts join_slash
display_parts-whole is_dir p [] le = mark-append is_dir p
display_parts-whole is_dir p (q ∷ ps) le =
    let folders = join_slash (init_parts (p ∷ q ∷ ps)) in
    let name = last_or_empty (p ∷ q ∷ ps) in
    rw (folder_str-short p q ps le, mark-append is_dir name)
      (append_assoc folders (slash ∷ []) (name ++ ending is_dir)
        ∙ sym (append_assoc folders (slash ∷ name) (ending is_dir))
        ∙ ap (λ t. t ++ ending is_dir) (join_slash-last p q ps))

empty-whole : [] ≡ trim_end [] ++ ending (ends_with_slash [])
unfolding trim_end ends_with_slash
empty-whole = refl

-- With at most three folders the two parts, put together, are the path with its trailing
-- separators made one.
pub split_path_display-whole :
    (path : Text)
    → length (split (trim_end path)) ≤ 4
    → (split_path_display path).0 ++ (split_path_display path).1
      ≡ trim_end path ++ ending (ends_with_slash path)
unfolding split_path_display
split_path_display-whole [] le = empty-whole
split_path_display-whole (c ∷ s) le =
    let (t, ts, e) = split_cons (trim_end (c ∷ s)) in
    rw e (
      display_parts-whole (ends_with_slash (c ∷ s)) t ts (subst (λ x. length x ≤ 4) e le)
      ∙ ap (λ x. join_slash x ++ ending (ends_with_slash (c ∷ s))) (sym e)
      ∙ ap (λ x. x ++ ending (ends_with_slash (c ∷ s))) (join_slash-split (trim_end (c ∷ s))))
