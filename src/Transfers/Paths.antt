-- ===== src/Transfers/Paths.antt =====
-- The paths of src/files/TransferManager.cpp: `remoteBaseName`, `joinRemote` and the two enqueue
-- functions. `QDir::absoluteFilePath` and `QFileInfo::fileName` are parameters.
use ar_term.Prelude.{
  ℕ, zero, suc, ◌-◌, ◌≡◌, refl, sym, ◌∙◌, ap, Bool, true, false, ◌&&◌, ◌||◌, ltb, ◌==◌,
  if◌then◌else◌, inl, inr, Bool-cases, arith, List, [], ◌∷◌, ◌++◌, length, take,
}
use mathlib.Core.List.{append_assoc}
use ar_term.Transfers.{download, upload, TransferManager, Outcome, new_job, enqueue}

abbrev pub ends_with_slash : List ℕ → Bool
ends_with_slash [] = false
ends_with_slash (c ∷ []) = c == b'/'
ends_with_slash (c ∷ d ∷ rest) = ends_with_slash (d ∷ rest)

-- The loop that chops one slash at a time, with the length as fuel.
unfoldable pub chop_slashes : ℕ → List ℕ → List ℕ
chop_slashes zero path = path
chop_slashes (suc fuel) path =
    let rest = chop_slashes fuel (take (length path - 1) path) in
    if ltb 1 (length path) && ends_with_slash path then rest else path

abbrev pub has_slash : List ℕ → Bool
has_slash [] = false
has_slash (c ∷ rest) = c == b'/' || has_slash rest

-- `mid(lastIndexOf('/') + 1)`, the whole text where there is no slash.
unfoldable pub after_last_slash : List ℕ → List ℕ
after_last_slash [] = []
after_last_slash (c ∷ rest) =
    let tail = after_last_slash rest in
    if has_slash rest then tail else if c == b'/' then rest else c ∷ rest

unfoldable pub remote_base_name : List ℕ → List ℕ
unfolding chop_slashes after_last_slash
remote_base_name path = after_last_slash (chop_slashes (length path) path)

abbrev pub is_root : List ℕ → Bool
is_root (c ∷ []) = c == b'/'
is_root _ = false

abbrev pub is_empty : List ℕ → Bool
is_empty [] = true
is_empty _ = false

unfoldable pub join_remote : List ℕ → List ℕ → List ℕ
join_remote directory name =
    if is_empty directory || is_root directory
    then b'/' ∷ name
    else if ends_with_slash directory
    then directory ++ name
    else directory ++ b'/' ∷ name

unfoldable pub enqueue_download :
    (absolute : List ℕ → List ℕ → List ℕ) → List ℕ → List ℕ → TransferManager → Outcome
unfolding remote_base_name enqueue
enqueue_download absolute remote directory m =
    let name = remote_base_name remote in
    enqueue (new_job download m.next_job_id remote (absolute directory name) name) m

unfoldable pub enqueue_upload :
    (file_name : List ℕ → List ℕ) → List ℕ → List ℕ → TransferManager → Outcome
unfolding join_remote enqueue
enqueue_upload file_name path directory m =
    let name = file_name path in
    enqueue (new_job upload m.next_job_id path (join_remote directory name) name) m

after_last_slash-clean : (path : List ℕ) → has_slash (after_last_slash path) ≡ false
unfolding after_last_slash
after_last_slash-clean [] = refl
after_last_slash-clean (c ∷ rest) = ground (arith, after_last_slash-clean rest)

-- The name that a download is given never has a slash, whatever the remote path: the file is made
-- in the local directory itself.
pub has_slash-remote_base_name : (path : List ℕ) → has_slash (remote_base_name path) ≡ false
unfolding remote_base_name
has_slash-remote_base_name path = after_last_slash-clean (chop_slashes (length path) path)

has_slash-append : (xs ys : List ℕ) → has_slash (xs ++ ys) ≡ (has_slash xs || has_slash ys)
has_slash-append [] ys = refl
has_slash-append (x ∷ xs) ys = ground (arith, has_slash-append xs ys)

-- A name behind a slash is found again.
after_last_slash-join :
    (front name : List ℕ) → has_slash name ≡ false → after_last_slash (front ++ b'/' ∷ name) ≡ name
unfolding after_last_slash
after_last_slash-join [] name h = ground (arith, h)
after_last_slash-join (c ∷ front) name h =
    ground (arith, after_last_slash-join front name h, has_slash-append front (b'/' ∷ name))

ends_with_slash-append :
    (front : List ℕ) (c : ℕ) (name : List ℕ)
    → has_slash (c ∷ name) ≡ false
    → ends_with_slash (front ++ c ∷ name) ≡ false
ends_with_slash-append [] c [] h = ground (arith, h)
ends_with_slash-append [] c (d ∷ name) h = ends_with_slash-append [] d name (ground (arith, h))
ends_with_slash-append (x ∷ []) c name h = ends_with_slash-append [] c name h
ends_with_slash-append (x ∷ y ∷ front) c name h = ends_with_slash-append (y ∷ front) c name h

chop_slashes-same :
    (fuel : ℕ) (path : List ℕ) → ends_with_slash path ≡ false → chop_slashes fuel path ≡ path
unfolding chop_slashes
chop_slashes-same zero path h = refl
chop_slashes-same (suc fuel) path h = ground (arith, h)

-- A directory that ends with a slash, without it.
split_slash :
    (xs : List ℕ) → ends_with_slash xs ≡ true → (front : List ℕ) × (xs ≡ front ++ b'/' ∷ [])
split_slash [] h = absurd (ground (arith, h))
split_slash (c ∷ []) h = ([], ground (arith, h))
split_slash (c ∷ d ∷ rest) h = let (front, e) = split_slash (d ∷ rest) h in (c ∷ front, ap (c ∷◌) e)

-- In each case there is a slash before the name.
join_remote-front :
    (directory name : List ℕ)
    → (front : List ℕ) × (join_remote directory name ≡ front ++ b'/' ∷ name)
unfolding join_remote
join_remote-front directory name = elim (Bool-cases (is_empty directory || is_root directory)) [
  | inl top ↦ ([], rw top refl)
  | inr below ↦ elim (Bool-cases (ends_with_slash directory)) [
    | inl ends ↦
        let (front, e) = split_slash directory ends in
        (front, rw (below, ends) (ap (λ xs. xs ++ name) e ∙ append_assoc front (b'/' ∷ []) name))
    | inr open_end ↦ (directory, rw (below, open_end) refl)
  ]
]

base_of_front :
    (front : List ℕ) (c : ℕ) (name : List ℕ)
    → has_slash (c ∷ name) ≡ false
    → remote_base_name (front ++ b'/' ∷ c ∷ name) ≡ c ∷ name
unfolding remote_base_name
base_of_front front c name h =
    let path = front ++ b'/' ∷ c ∷ name in
    let closed : ends_with_slash path ≡ false =
      ap ends_with_slash (sym (append_assoc front (b'/' ∷ []) (c ∷ name)))
      ∙ ends_with_slash-append (front ++ b'/' ∷ []) c name h in
    ap after_last_slash (chop_slashes-same (length path) path closed)
    ∙ after_last_slash-join front (c ∷ name) h

-- The base name of a joined path is the name that was joined, for any directory, the root and one
-- with a slash at its end included, and a name that is not empty and has no slash.
pub remote_base_name-join_remote :
    (directory : List ℕ) (c : ℕ) (name : List ℕ)
    → has_slash (c ∷ name) ≡ false
    → remote_base_name (join_remote directory (c ∷ name)) ≡ c ∷ name
remote_base_name-join_remote directory c name h =
    let (front, e) = join_remote-front directory (c ∷ name) in
    ap remote_base_name e ∙ base_of_front front c name h
