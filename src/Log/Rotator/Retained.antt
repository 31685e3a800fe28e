-- ===== src/Log/Rotator/Retained.antt =====
-- internal/log/rotator.go: what a write keeps of what was written before, whatever fails.
use randomshitgo_go.Prelude.{
  ℕ, zero, suc, ◌+◌, ◌-◌, ◌≤◌, ◌<◌, List, [], ◌++◌, Option, none, some, Bool, true, false, ◌≡◌, ◌≢◌,
  refl, sym, ap, ap₂, ◌∙◌, inl, inr, arith, subst, ◌==◌, leb, if◌then◌else◌, if_either, take,
  Bool-cases, append_assoc, append-nil, true≢false,
}
use randomshitgo_go.Log.Rotator.{
  Files, Rotator, RotatorError, Opening, opens, not_opened, not_stated, Fault, exists?, content,
  put_file, rename, shift, shift_stops, drop_oldest, is_drop, is_main, is_close, rotate_main,
  rotate_files, rotate_locked, append_log, open_log, write,
}

-- The bytes of the backups n, n - 1, … 1 and of the log, oldest first.
pub retained : ℕ → Files → List ℕ
retained zero files = content files 0
retained (suc n) files = content files (suc n) ++ retained n files

retained-same :
    (n : ℕ) (f g : Files)
    → ((k : ℕ) → k ≤ n → content f k ≡ content g k)
    → retained n f ≡ retained n g
unfolding retained
retained-same zero f g h = h 0 (omega arith)
retained-same (suc n) f g h =
    ap₂ (λ a b. a ++ b) (h (suc n) (omega arith))
      (retained-same n f g (λ k le. h k (omega (arith, le))))

put_ne : (f : Files) (i k : ℕ) (b : Option (List ℕ)) → k ≢ i → put_file f i b k ≡ f k
put_ne f i k b h =
    let other : (k == i) ≡ false = ground arith in ap (λ t. if t then b else f k) other

put_eq : (f : Files) (i : ℕ) (b : Option (List ℕ)) → put_file f i b i ≡ b
put_eq f i b = let same : (i == i) ≡ true = ground arith in ap (λ t. if t then b else f i) same

rename-dst : (f : Files) (src dst : ℕ) → rename f src dst dst ≡ f src
unfolding rename
rename-dst f src dst = put_eq (put_file f src none) dst (f src)

rename-src : (f : Files) (src dst : ℕ) → src ≢ dst → rename f src dst src ≡ none
unfolding rename
rename-src f src dst h = put_ne (put_file f src none) dst src (f src) h ∙ put_eq f src none

rename-other : (f : Files) (src dst k : ℕ) → k ≢ src → k ≢ dst → rename f src dst k ≡ f k
unfolding rename
rename-other f src dst k h j = put_ne (put_file f src none) dst k (f src) j ∙ put_ne f src k none h

-- Stat answers for every file.
abbrev always : ℕ → Bool
always k = true

-- The loop leaves what is above its first target.
shift-above : (fault : Fault) (i k : ℕ) (f : Files) → i + 1 < k → (shift always fault i f).1 k ≡ f k
unfolding shift
shift-above fault zero k f h = refl
shift-above fault (suc i) k f h =
    if_either (λ (t : Bool × Files). t.1 k ≡ f k) (exists? (f (suc i)))
      (if_either (λ (t : Bool × Files). t.1 k ≡ f k) (shift_stops fault (suc i)) refl
        (shift-above fault i k (rename f (suc i) (suc i + 1)) (omega (arith, h))
          ∙ rename-other f (suc i) (suc i + 1) k (omega (arith, h)) (omega (arith, h))))
      (shift-above fault i k f (omega (arith, h)))

-- What a number that is free has.
free : (f : Files) (k : ℕ) → f k ≡ none → content f k ≡ []
free f k h = rw (content, h) refl

absent : (o : Option (List ℕ)) → exists? o ≡ false → o ≡ none
absent none h = refl
absent (some b) h = cc

content-eq : (f g : Files) (k j : ℕ) → f k ≡ g j → content f k ≡ content g j
content-eq f g k j h = ap (λ o. elim o [ none ↦ [] | some b ↦ b ]) h

-- One rename to a number that is free, and what the loop does then.
moved :
    (f after : Files) (i : ℕ)
    → f (suc (suc i)) ≡ none
    → let g : Files = rename f (suc i) (suc i + 1) in
      after (suc (suc i)) ≡ g (suc (suc i))
      → retained (suc i) after ≡ retained (suc i) g
      → retained (suc (suc i)) after ≡ retained (suc (suc i)) f
unfolding retained
moved f after i h top rest =
    let g : Files = rename f (suc i) (suc i + 1) in
    let up : g (suc (suc i)) ≡ f (suc i) =
      ap g {x = suc (suc i)} {y = suc i + 1} (omega arith) ∙ rename-dst f (suc i) (suc i + 1) in
    let gone : content g (suc i) ≡ [] =
      free g (suc i) (rename-src f (suc i) (suc i + 1) (λ e. omega (arith, e))) in
    let below : retained i g ≡ retained i f = retained-same i g f (λ k le. content-eq g f k k (
      rename-other f (suc i) (suc i + 1) k (λ e. omega (arith, e, le))
        (λ e. omega (arith, e, le)))) in
    ap₂ (λ a b. a ++ b) (content-eq after f (suc (suc i)) (suc i) (top ∙ up))
      (rest ∙ ap₂ (λ a b. a ++ b) gone below)
    ∙ ap (λ t. t ++ (content f (suc i) ++ retained i f)) (sym (free f (suc (suc i)) h))

-- Its first target free, the loop moves bytes between files and keeps them in order.
shift-retained :
    (fault : Fault) (i : ℕ) (f : Files)
    → f (suc i) ≡ none
    → retained (suc i) (shift always fault i f).1 ≡ retained (suc i) f
unfolding shift retained
shift-retained fault zero f h = refl
shift-retained fault (suc i) f h = elim (Bool-cases (exists? (f (suc i)))) [
  | inl e ↦ elim (Bool-cases (shift_stops fault (suc i))) [
    | inl stops ↦ rw (shift, e, stops) refl
    | inr goes ↦
        let g : Files = rename f (suc i) (suc i + 1) in
        rw (shift, e, goes)
          (moved f (shift always fault i g).1 i h
            (shift-above fault i (suc (suc i)) g (omega arith))
            (shift-retained fault i g (rename-src f (suc i) (suc i + 1) (λ e. omega (arith, e)))))
  ]
  | inr e ↦
      rw (shift, e)
        (ap₂ (λ a b. a ++ b)
          (content-eq (shift always fault i f).1 f (suc (suc i)) (suc (suc i))
            (shift-above fault i (suc (suc i)) f (omega arith)))
          (shift-retained fault i f (absent (f (suc i)) e)))
]

-- When it has run through, the first backup's number is free.
shift-vacates :
    (fault : Fault) (i : ℕ) (f : Files)
    → f (suc i) ≡ none
    → (shift always fault i f).0 ≡ true
    → (shift always fault i f).1 1 ≡ none
unfolding shift
shift-vacates fault zero f h ok = h
shift-vacates fault (suc i) f h ok = elim (Bool-cases (exists? (f (suc i)))) [
  | inl e ↦ elim (Bool-cases (shift_stops fault (suc i))) [
    | inl stops ↦ absurd (true≢false (sym ok ∙ rw (shift, e, stops) refl))
    | inr goes ↦
        let g : Files = rename f (suc i) (suc i + 1) in
        rw (shift, e, goes)
          (shift-vacates fault i g (rename-src f (suc i) (suc i + 1) (λ e. omega (arith, e)))
            (sym (rw (shift, e, goes) refl) ∙ ok))
  ]
  | inr e ↦
      rw (shift, e) (shift-vacates fault i f (absent (f (suc i)) e) (sym (rw (shift, e) refl) ∙ ok))
]

-- The log under the number 1, which was free.
main-retained :
    (f : Files) (n : ℕ) → f 1 ≡ none → retained (suc n) (rename f 0 1) ≡ retained (suc n) f
unfolding retained
main-retained f zero h =
    ap₂ (λ a b. a ++ b) (content-eq (rename f 0 1) f 1 0 (rename-dst f 0 1))
      (free (rename f 0 1) 0 (rename-src f 0 1 (λ e. omega (arith, e))))
    ∙ append-nil (content f 0)
    ∙ ap (λ t. t ++ content f 0) (sym (free f 1 h))
main-retained f (suc n) h =
    ap₂ (λ a b. a ++ b)
      (content-eq (rename f 0 1) f (suc (suc n)) (suc (suc n))
        (rename-other f 0 1 (suc (suc n)) (λ e. omega (arith, e)) (λ e. omega (arith, e))))
      (main-retained f n h)

rotate_main-retained :
    (fault : Fault) (f : Files) (n : ℕ)
    → f 1 ≡ none
    → retained (suc n) (rotate_main always fault f).1 ≡ retained (suc n) f
unfolding rotate_main
rotate_main-retained fault f n h =
    let Same : Bool × Files → Type 0 = λ t. retained (suc n) t.1 ≡ retained (suc n) f in
    if_either Same (exists? (f 0)) (if_either Same (is_main fault) refl (main-retained f n h)) refl

-- The second text ends in the first.
abbrev pub IsSuffix : List ℕ → List ℕ → Type 0
IsSuffix xs ys = (dropped : List ℕ) × (dropped ++ xs ≡ ys)

drop_oldest-suffix :
    (fault : Fault) (f : Files) (n : ℕ)
    → IsSuffix (retained (suc n) (drop_oldest always fault (suc n) f).1) (retained (suc n) f)
unfolding drop_oldest retained
drop_oldest-suffix fault f n =
    let Ends : Bool × Files → Type 0 = λ t. IsSuffix (retained (suc n) t.1) (retained (suc n) f) in
    let g : Files = put_file f (suc n) none in
    let rest : retained n g ≡ retained n f =
      retained-same n g f
        (λ k le. content-eq g f k k (put_ne f (suc n) k none (λ e. omega (arith, e, le)))) in
    if_either Ends (exists? (f (suc n)))
      (if_either Ends (is_drop fault) ([], refl)
        (
          content f (suc n),
          ap (λ t. content f (suc n) ++ t)
              (ap₂ (λ a b. a ++ b) (free g (suc n) (put_eq f (suc n) none)) rest),
        ))
      ([], refl)

drop_oldest-free :
    (fault : Fault) (f : Files) (n : ℕ)
    → (drop_oldest always fault n f).0 ≡ true
    → (drop_oldest always fault n f).1 n ≡ none
unfolding drop_oldest
drop_oldest-free fault f n ok = elim (Bool-cases (exists? (f n))) [
  | inl e ↦ elim (Bool-cases (is_drop fault)) [
    | inl stops ↦ absurd (true≢false (sym ok ∙ rw (drop_oldest, e, stops) refl))
    | inr goes ↦ rw (drop_oldest, e, goes) (put_eq f n none)
  ]
  | inr e ↦ rw (drop_oldest, e) (absent (f n) e)
]

suffix-of : (xs ys zs : List ℕ) → xs ≡ ys → IsSuffix ys zs → IsSuffix xs zs
suffix-of xs ys zs e (p, h) = (p, ap (λ t. p ++ t) e ∙ h)

rotate_files-suffix :
    (fault : Fault) (f : Files) (n : ℕ)
    → IsSuffix (retained (suc n) (rotate_files always fault (suc n) f).1) (retained (suc n) f)
unfolding rotate_files
rotate_files-suffix fault f n =
    let d : Bool × Files = drop_oldest always fault (suc n) f in
    let s : Bool × Files = shift always fault n d.1 in
    let dropped = drop_oldest-suffix fault f n in
    let minus : suc n - 1 ≡ n = omega arith in
    elim (Bool-cases d.0) [
      | inr fails ↦ rw (rotate_files, fails) dropped
      | inl ok ↦
          let empty = drop_oldest-free fault f (suc n) ok in
          let shifted = suffix-of _ _ _ (shift-retained fault n d.1 empty) dropped in
          elim (Bool-cases s.0) [
            | inr fails ↦ rw (rotate_files, minus, ok, fails) shifted
            | inl done ↦
                rw (rotate_files, minus, ok, done)
                  (suffix-of _ _ _
                    (rotate_main-retained fault s.1 n (shift-vacates fault n d.1 empty done))
                    shifted)
          ]
    ]

-- The log with other bytes, the backups as they were.
append-retained :
    (f : Files) (bs : List ℕ) (n : ℕ)
    → retained n (put_file f 0 (some (content f 0 ++ bs))) ≡ retained n f ++ bs
unfolding retained
append-retained f bs zero = free_of (put_eq f 0 (some (content f 0 ++ bs)))
  where
    free_of :
        {o : Option (List ℕ)}
        → o ≡ some (content f 0 ++ bs)
        → elim o [ none ↦ [] | some b ↦ b ] ≡ content f 0 ++ bs
    free_of h = rw h refl
append-retained f bs (suc n) =
    let g : Files = put_file f 0 (some (content f 0 ++ bs)) in
    ap₂ (λ a b. a ++ b)
      (content-eq g f (suc n) (suc n)
        (put_ne f 0 (suc n) (some (content f 0 ++ bs)) (λ e. omega (arith, e))))
      (append-retained f bs n)
    ∙ sym (append_assoc (content f (suc n)) (retained n f) bs)

-- A log that is made, if it was not there.
made-retained : (f : Files) (n : ℕ) → retained n (put_file f 0 (some (content f 0))) ≡ retained n f
made-retained f n =
    ap (λ t. retained n (put_file f 0 (some t))) (sym (append-nil (content f 0)))
    ∙ append-retained f [] n
    ∙ append-nil (retained n f)

open_log-retained :
    (opening : Opening) (r : Rotator) (n : ℕ)
    → retained n (open_log opening r).1.files ≡ retained n r.files
unfolding open_log
open_log-retained not_opened r n = refl
open_log-retained not_stated r n = made-retained r.files n
open_log-retained opens r n = made-retained r.files n

rotate_locked-suffix :
    (fault : Fault) (opening : Opening) (r : Rotator) (n : ℕ)
    → r.max_backups ≡ suc n
    → IsSuffix
        (retained (suc n) (rotate_locked always fault opening r).files)
        (retained (suc n) r.files)
unfolding rotate_locked
rotate_locked-suffix fault opening r n h =
    let rotated = rotate_files-suffix fault r.files n in
    let Ends : Rotator → Type 0 =
      λ q. IsSuffix (retained (suc n) q.files) (retained (suc n) r.files) in
    if_either Ends (is_close fault) ([], refl)
      (rw h (
        if_either Ends (rotate_files always fault (suc n) r.files).0
          (suffix-of _ _ _ (open_log-retained opening _ (suc n)) rotated) rotated))

append_log-suffix :
    (r : Rotator) (b : List ℕ) (k n : ℕ) (failed : Bool) (fault : Fault) (opening : Opening)
    → r.max_backups ≡ suc n
    → IsSuffix
        (retained (suc n) (append_log r b k failed always fault opening).1.files)
        (retained (suc n) r.files ++ take (append_log r b k failed always fault opening).0.0 b)
unfolding append_log
append_log-suffix r b k n failed fault opening h =
    let Ends : (ℕ × Option RotatorError) × Rotator → Type 0 =
      λ t. IsSuffix (retained (suc n) t.1.files) (retained (suc n) r.files ++ take t.0.0 b) in
    let grown = append-retained r.files (take k b) (suc n) in
    let r' : Rotator = record r {
      files = put_file r.files 0 (some (content r.files 0 ++ take k b));
      written = r.written + k;
    } in
    let Kept : Rotator → Type 0 =
      λ q. IsSuffix (retained (suc n) q.files) (retained (suc n) r.files ++ take k b) in
    let (dropped, e) = rotate_locked-suffix fault opening r' n h in
    if_either Ends failed ([], grown)
      (if_either Kept (leb r.max_bytes (r.written + k)) (dropped, e ∙ grown) ([], grown))

-- Opening changes neither the limit nor what is retained.
open_log-limit :
    (opening : Opening) (r : Rotator) → (open_log opening r).1.max_backups ≡ r.max_backups
unfolding open_log
open_log-limit opens r = refl
open_log-limit not_opened r = refl
open_log-limit not_stated r = refl

write-kept :
    (r : Rotator) (b : List ℕ) (k n : ℕ) (failed : Bool) (fault : Fault) (first again : Opening)
    → r.max_backups ≡ suc n
    → IsSuffix
        (retained (suc n) (write r b k failed always fault first again).1.files)
        (retained (suc n) r.files ++ take (write r b k failed always fault first again).0.0 b)
unfolding write
write-kept r b k n failed fault first again h =
    let Ends : (ℕ × Option RotatorError) × Rotator → Type 0 =
      λ t. IsSuffix (retained (suc n) t.1.files) (retained (suc n) r.files ++ take t.0.0 b) in
    let opened : Bool × Rotator = open_log first r in
    let same : retained (suc n) opened.1.files ≡ retained (suc n) r.files =
      open_log-retained first r (suc n) in
    let (dropped, e) =
      append_log-suffix opened.1 b k n failed fault again (open_log-limit first r ∙ h) in
    if_either Ends r.is_open (append_log-suffix r b k n failed fault again h) (
      if_either Ends opened.0
        (
          dropped,
          e ∙ ap (λ t. t ++ take (append_log opened.1 b k failed always fault again).0.0 b) same,
        )
        ([], same ∙ sym (append-nil (retained (suc n) r.files))))

-- When Stat answers for every file that exists, then after a write the backups and the log, oldest first, are the
-- end of what they were before with the bytes written behind it: whichever other step fails, bytes are
-- lost from the oldest end alone, and never reordered. The limit is at least one backup, and nothing else
-- touches the files.
pub write-IsSuffix :
    (r : Rotator) (b : List ℕ) (k n : ℕ) (failed : Bool) (stat : ℕ → Bool) (fault : Fault)
    (first again : Opening)
    → ((j : ℕ) → stat j ≡ true)
    → r.max_backups ≡ suc n
    → IsSuffix
        (retained (suc n) (write r b k failed stat fault first again).1.files)
        (retained (suc n) r.files ++ take (write r b k failed stat fault first again).0.0 b)
write-IsSuffix r b k n failed stat fault first again answers h =
    let same : always ≡ stat = (λ i j. sym (answers j) i) in
    subst
      (λ st.
        IsSuffix (retained (suc n) (write r b k failed st fault first again).1.files)
          (retained (suc n) r.files ++ take (write r b k failed st fault first again).0.0 b))
      same (write-kept r b k n failed fault first again h)
