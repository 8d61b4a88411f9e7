-- ===== src/Git/Remote/Origin.antt =====
-- internal/git/git.go: the repository that OriginRepository reads from the address of origin.
use hooversion.Common.{ℕ, ◌≡◌, ◌≢◌, ◌⊎◌, inl, inr, true, [], ◌∷◌, ◌++◌, some, All, arith, All_mono}
use hooversion.Git.Remote.{is_name_rune, repository_path, behind_host, repository_of}
use hooversion.Text.Laws.{text_eq_ne, text_eq_iff, cut_rune-append}
use hooversion.Text.Spans.{Stops, take_while-append, drop_while-append}
use hooversion.Text.{Text, codes, has_prefix}

-- A last part of an address: nothing, or ".git".
abbrev pub IsEnding : Text → Type 0
IsEnding ending = (ending ≡ []) ⊎ (ending ≡ codes ".git")

ending-Stops : (ending : Text) → IsEnding ending → Stops is_name_rune ending
ending-Stops [] h = tt
ending-Stops (c ∷ s) (inl h) = cc
ending-Stops (c ∷ s) (inr h) = ground arith

repository_path-append :
    (owner name ending : Text)
    → owner ≢ []
    → name ≢ []
    → All (λ c. c ≢ b'/') owner
    → All (λ c. is_name_rune c ≡ true) name
    → IsEnding ending
    → repository_path (owner ++ b'/' ∷ (name ++ ending)) ≡ some (owner ++ b'/' ∷ name)
unfolding repository_path
repository_path-append owner name ending ho hn ao an he =
    let e1 = cut_rune-append owner (name ++ ending) b'/' ao in
    let e2 = take_while-append is_name_rune name ending an (ending-Stops ending he) in
    let e3 = drop_while-append is_name_rune name ending an (ending-Stops ending he) in
    rw (e1, e2, e3, text_eq_ne owner [] ho, text_eq_ne name [] hn) ground
      (arith, text_eq_iff ending [], text_eq_iff ending (codes ".git"))

behind_host-append :
    (sep : ℕ) (host path : Text) {repository : Text}
    → host ≢ []
    → All (λ c. c ≢ sep) host
    → repository_path path ≡ some repository
    → behind_host sep (host ++ sep ∷ path) ≡ some repository
unfolding behind_host
behind_host-append sep host path hh ah e =
    rw (cut_rune-append host path sep ah, text_eq_ne host [] hh, e)

-- OriginRepository reads "owner/name" from the address of a repository by SSH and from the one by
-- HTTPS, with ".git" behind it or not, for every host, every owner without a slash and every name
-- with neither a slash nor a dot.
pub repository_of-address :
    (host owner name ending : Text)
    → host ≢ []
    → owner ≢ []
    → name ≢ []
    → All (λ c. (c ≢ b':') × (c ≢ b'/')) host
    → All (λ c. c ≢ b'/') owner
    → All (λ c. is_name_rune c ≡ true) name
    → IsEnding ending
    → (repository_of (codes "git@" ++ (host ++ b':' ∷ (owner ++ b'/' ∷ (name ++ ending))))
        ≡ owner ++ b'/' ∷ name)
      × (repository_of (codes "https://" ++ (host ++ b'/' ∷ (owner ++ b'/' ∷ (name ++ ending))))
          ≡ owner ++ b'/' ∷ name)
unfolding repository_of has_prefix
repository_of-address host owner name ending hh ho hn ah ao an he =
    let path = owner ++ b'/' ∷ (name ++ ending) in
    let e = repository_path-append owner name ending ho hn ao an he in
    (
      rw (repository_of, behind_host-append b':' host path hh (All_mono (λ c h. h.0) host ah) e),
      rw (repository_of, behind_host-append b'/' host path hh (All_mono (λ c h. h.1) host ah) e),
    )
