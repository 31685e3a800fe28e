-- ===== src/Log/Rotator/Tests.antt =====
-- internal/log/rotator.go: a rotation whose second rename fails.
use randomshitgo_go.Prelude.{[], ◌∷◌, ◌++◌, refl, none, some, true, false, take}
use randomshitgo_go.Log.Rotator.{Rotator, put_file, opens, at_main, write}
use randomshitgo_go.Log.Rotator.Retained.{retained, IsSuffix, write-IsSuffix}

-- One byte in the log and one in its backup, with a limit of two bytes and one backup.
abbrev rotator : Rotator
rotator = record {
  files = put_file (put_file (λ k. none) 0 (some (b'b' ∷ []))) 1 (some (b'a' ∷ []));
  max_bytes = 2;
  max_backups = 1;
  is_open = true;
  written = 1;
}

write-IsSuffix_example :
    IsSuffix
      (retained 1 (write rotator (b'c' ∷ []) 1 false (λ k. true) at_main opens opens).1.files)
      (retained 1 rotator.files
        ++ take (write rotator (b'c' ∷ []) 1 false (λ k. true) at_main opens opens).0.0 (b'c' ∷ []))
write-IsSuffix_example =
    write-IsSuffix rotator (b'c' ∷ []) 1 0 false (λ k. true) at_main opens opens (λ j. refl) refl
