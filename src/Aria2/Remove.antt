-- ===== src/Aria2/Remove.antt =====
-- internal/downloader/aria2.go, `Remove`: its errors, and the request that ends it.
use dlq_download_queue.Prelude.{◌≡◌, refl, false, List, [], ◌∷◌, Bool-cases, inl, inr}
use dlq_download_queue.Go.Strings.{Text, codes}
use dlq_download_queue.Go.Error.{Result, ok, err, is_gid_not_found, is_engine_refusal}
use dlq_download_queue.Aria2.{
  Aria2Client, Transport, RpcRequest, Exchange, text_param, signed, forgive, command, clean_up,
  clean_up_after, force_remove, after_remove, remove, call,
}

-- An error of Remove does not say that the download is unknown; without an error, the last request
-- has asked for the removal of the download's result.
unfoldable pub Removed : Aria2Client → Text → Exchange (Unit {0}) → Type 0
unfolding signed
Removed c gid (err e, sent) = is_gid_not_found e ≡ false
Removed c gid (ok u, []) = ⊥
Removed c gid (ok u, r ∷ sent) = r ≡ record {
  method = codes "aria2.removeDownloadResult";
  params = signed c (text_param gid ∷ []);
}

-- What is forgiven is not an unknown download.
closed :
    (c : Aria2Client) (gid : Text) (sent : List RpcRequest) (r : Result (Unit {0}))
    → Removed c gid (
      forgive r,
      record {
        method = codes "aria2.removeDownloadResult";
        params = signed c (text_param gid ∷ []);
      }
          ∷ sent,
    )
unfolding Removed forgive
closed c gid sent (ok u) = refl
closed c gid sent (err e) = elim (Bool-cases (is_gid_not_found e)) [
  | inl h ↦ rw (h, forgive) refl
  | inr h ↦ rw (h, forgive) h
]

module _ (c : Aria2Client) (transport : Transport) (gid : Text) where
  clean_up-Removed : (sent : List RpcRequest) → Removed c gid (clean_up c transport gid sent)
  unfolding clean_up command call
  clean_up-Removed sent = closed c gid sent _

  clean_up_after-Removed :
      (r : Result (Unit {0})) (sent : List RpcRequest)
      → Removed c gid (clean_up_after c transport gid (forgive r, sent))
  unfolding Removed forgive
  clean_up_after-Removed (ok u) sent = clean_up-Removed sent
  clean_up_after-Removed (err e) sent = elim (Bool-cases (is_gid_not_found e)) [
    | inl h ↦ rw (h, forgive) (clean_up-Removed sent)
    | inr h ↦ rw (h, forgive) h
  ]

  after_remove-Removed :
      (r : Result (Unit {0})) (sent : List RpcRequest)
      → Removed c gid (after_remove c transport gid (r, sent))
  unfolding Removed force_remove
  after_remove-Removed (ok u) sent = clean_up-Removed sent
  after_remove-Removed (err e) sent = elim (Bool-cases (is_engine_refusal e)) [
    | inl h ↦ rw h (clean_up_after-Removed _ _)
    | inr h ↦ elim (Bool-cases (is_gid_not_found e)) [
      | inl g ↦ rw (h, g) (clean_up-Removed sent)
      | inr g ↦ rw (h, g) g
    ]
  ]

  -- An error of the aria2 client's Remove does not say that aria2 does not know the download;
  -- where Remove returns no error, its last request was the removal of the download's result.
  pub remove-Removed : (sent : List RpcRequest) → Removed c gid (remove c transport gid sent)
  unfolding remove
  remove-Removed sent = after_remove-Removed _ _
