-- ===== src/PathDisplay/Examples.antt =====
-- Displayed paths.
use syncgdrive.Base.{◌≡◌, refl, arith, codes, ◌++◌}
use syncgdrive.Paths.{split}
use syncgdrive.PathDisplay.{
  split_path_display, display_parts, folder_str, trim_end, ends_with_slash, last_or_empty,
}
use syncgdrive.PathDisplay.Whole.{ending, split_path_display-whole}

deep_path : split_path_display (codes "A/B/C/D/E/file.txt") ≡ (codes "A/.../D/E/", codes "file.txt")
unfolding split_path_display display_parts folder_str trim_end ends_with_slash last_or_empty split
deep_path = refl

split_path_display-whole_example :
    (split_path_display (codes "a/b/")).0 ++ (split_path_display (codes "a/b/")).1
    ≡ trim_end (codes "a/b/") ++ ending (ends_with_slash (codes "a/b/"))
unfolding split trim_end
split_path_display-whole_example = split_path_display-whole (codes "a/b/") (omega arith)
