-- ===== src/Dlq/Add/Requests.antt =====
-- cmd/dlq/add.go: the requests that the command makes.
use dlq_download_queue.Prelude.{
  ℕ, suc, ◌≤◌, Bool, true, false, not, ◌≡◌, refl, ap, ◌∙◌, List, [], ◌∷◌, ◌++◌, ◌==◌, ◌||◌, ◌&&◌,
  Bool-cases, ◌⊎◌, inl, inr, arith, any_of, map, length, ltb, ap,
}
use dlq_download_queue.Go.Strings.{Text, codes, is_empty}
use dlq_download_queue.Go.Error.{Result, ok, err}
use dlq_download_queue.Dlq.Add.{
  AddArgs, Inputs, Post, Payload, Outcome, payload_of, noted, post_all, add_parsed, parse_add_args,
  cmd_add, is_help,
}

noted-posts :
    (to : Text) (p : Payload) (r : Result Text) (o : Outcome)
    → (noted to p r o).posts ≡ (to, p) ∷ o.posts
noted-posts to p (ok id) o = refl
noted-posts to p (err e) o = refl

-- A request for each URL, in order, with the settings of all.
abbrev requests_of : AddArgs → List Text → List (Text × Payload)
requests_of a urls = map (λ u. (a.api ++ codes "/jobs", payload_of a u)) urls

post_all-requests_of :
    (post : Post) (a : AddArgs) (urls : List Text) (n : ℕ)
    → (post_all post a urls n).posts ≡ requests_of a urls
unfolding post_all
post_all-requests_of post a [] n = refl
post_all-requests_of post a (u ∷ urls) n =
    noted-posts (a.api ++ codes "/jobs") (payload_of a u)
      (post n (a.api ++ codes "/jobs") (payload_of a u)) (post_all post a urls (suc n))
    ∙ ap (λ rest. (a.api ++ codes "/jobs", payload_of a u) ∷ rest)
        (post_all-requests_of post a urls (suc n))

-- What the arguments come to allows the requests: there is a directory, and a name only for one URL.
abbrev IsSendable : AddArgs → Type 0
IsSendable a = (is_empty a.out_dir ≡ false) × ((length a.urls ≤ 1) ⊎ (is_empty a.name ≡ true))

-- No request is made, or those of the arguments, which allow them.
abbrev pub Requested : Result AddArgs → List (Text × Payload) → Type 0
Requested r posts =
    (posts ≡ []) ⊎ ((a : AddArgs) × (r ≡ ok a) × IsSendable a × (posts ≡ requests_of a a.urls))

sendable : (n : ℕ) (b : Bool) → (ltb 1 n && not b) ≡ false → (n ≤ 1) ⊎ (b ≡ true)
sendable n true h = inr refl
sendable n false h = inl (ground arith)

or_false : (a b : Bool) → (a || b) ≡ false → b ≡ false
or_false true b h = absurd cc
or_false false b h = h

add_parsed-Requested : (post : Post) (r : Result AddArgs) → Requested r (add_parsed post r).posts
add_parsed-Requested post (err e) = inl refl
add_parsed-Requested post (ok a) = elim (Bool-cases (length a.urls == 0 || is_empty a.out_dir)) [
  | inl e ↦ rw e (inl refl)
  | inr e ↦ rw e (elim (Bool-cases (ltb 1 (length a.urls) && not (is_empty a.name))) [
    | inl g ↦ rw g (inl refl)
    | inr g ↦ rw g (
        inr (
          a,
          refl,
          (or_false _ _ e, sendable (length a.urls) (is_empty a.name) g),
          post_all-requests_of post a a.urls 0,
        ))
  ])
]

-- The command makes no request, or one for each URL of its arguments, in their order, to the same
-- server and with the same settings, and then there is a directory, and no name if there are several
-- URLs; a request that fails does not keep it from the next.
pub cmd_add-Requested :
    (i : Inputs) (post : Post) (usage args : List Text)
    → Requested (parse_add_args i args) (cmd_add i post usage args).posts
unfolding cmd_add
cmd_add-Requested i post usage args = elim (Bool-cases (any_of is_help args)) [
  | inl e ↦ rw e (inl refl)
  | inr e ↦ rw e (add_parsed-Requested post (parse_add_args i args))
]
