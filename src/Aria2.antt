-- ===== src/Aria2.antt =====
-- internal/downloader/aria2.go: the JSON-RPC client of aria2. The transport carries a request to
-- aria2 and decodes the response; the JSON of a result is read by the codec.
pub mod Remove
use dlq_download_queue.Prelude.{
  ℕ, Bool, true, false, ◌||◌, List, [], ◌∷◌, ◌++◌, Option, none, some, if◌then◌else◌, ℤ, pos,
  negsuc, suc, length,
}
use dlq_download_queue.Go.Strings.{Text, codes, is_empty, contains, to_lower}
use dlq_download_queue.Go.Strconv.{itoa}
use dlq_download_queue.Go.Error.{
  Error, engine_gid_not_found, engine_action_not_allowed, Result, ok, err, plain, wrap,
  is_gid_not_found, is_engine_refusal,
}
use dlq_download_queue.Queue.World.{Options}
use dlq_download_queue.Queue.Engine.{EngineStatus, Downloader}

pub record Aria2Client : Type 0 where
  pub endpoint : Text
  pub secret : Text

pub data Param : Type 0 where
  text_param : Text → Param
  number_param : ℤ → Param
  texts_param : List Text → Param
  options_param : Options → Param

pub record RpcRequest : Type 0 where
  pub method : Text
  pub params : List Param

pub record RpcError : Type 0 where
  pub code : ℤ
  pub message : Text

-- The result is its JSON text.
pub record RpcResponse : Type 0 where
  pub result : Text
  pub error : Option RpcError

-- How requests are answered, by how many were sent before: json.Marshal, the HTTP exchange and the
-- decoding of the response.
abbrev pub Transport : Type 0
Transport = ℕ → RpcRequest → Result RpcResponse

-- json.Unmarshal of a result.
pub record Codec : Type 0 where
  pub read_gid : Text → Result Text
  pub read_status : Text → Result EngineStatus
  pub read_statuses : Text → Result (List EngineStatus)

unfoldable pub is_gid_not_found_message : Text → Bool
unfolding is_empty contains to_lower
is_gid_not_found_message msg =
    let lower = to_lower msg in
    if is_empty msg
    then false
    else contains lower (codes "not found")
      || contains lower (codes "no such download")
      || contains lower (codes "cannot be found")

unfoldable is_action_not_allowed_message : Text → Bool
unfolding is_empty contains to_lower
is_action_not_allowed_message msg =
    let lower = to_lower msg in
    if is_empty msg
    then false
    else contains lower (codes "cannot be paused now")
      || contains lower (codes "cannot be unpaused now")
      || contains lower (codes "cannot be resumed now")
      || contains lower (codes "cannot be removed now")

abbrev pub itoa_ℤ : ℤ → Text
itoa_ℤ (pos n) = itoa n
itoa_ℤ (negsuc n) = codes "-" ++ itoa (suc n)

abbrev gid_not_found_error : Error
gid_not_found_error = record { kind = engine_gid_not_found; text = codes "aria2_gid_not_found" }

abbrev action_not_allowed_error : Error
action_not_allowed_error = record {
  kind = engine_action_not_allowed;
  text = codes "aria2_action_not_allowed";
}

unfoldable rpc_error : RpcError → Error
unfolding is_gid_not_found_message is_action_not_allowed_message itoa
rpc_error e =
    let base = plain (codes "aria2_rpc_error:" ++ (itoa_ℤ e.code ++ (codes ":" ++ e.message))) in
    if is_gid_not_found_message e.message
    then wrap gid_not_found_error base
    else if is_action_not_allowed_message e.message
    then wrap action_not_allowed_error base
    else base

unfoldable pub signed : Aria2Client → List Param → List Param
unfolding is_empty
signed c params =
    if is_empty c.secret then params else text_param (codes "token:" ++ c.secret) ∷ params

-- What an answer comes to: the JSON of the result, or an error.
unfoldable pub answered : Result RpcResponse → Result Text
unfolding rpc_error
answered (err e) = err e
answered (ok r) = elim r.error [ some e ↦ err (rpc_error e) | none ↦ ok r.result ]

-- The requests sent so far, the latest first, are the state of the exchange.
abbrev pub Exchange : Type 0 → Type 0
Exchange A = Result A × List RpcRequest

-- A value read from the JSON of a result.
abbrev read_result : {A : Type 0} → (Text → Result A) → Result Text → Result A
read_result read (err e) = err e
read_result read (ok t) = read t

abbrev read_with : {A : Type 0} → (Text → Result A) → Exchange Text → Exchange A
read_with read (r, sent) = (read_result read r, sent)

abbrev status_keys : List Text
status_keys =
    codes "gid"
    ∷ codes "status"
    ∷ codes "totalLength"
    ∷ codes "completedLength"
    ∷ codes "downloadSpeed"
    ∷ codes "errorCode"
    ∷ codes "errorMessage"
    ∷ codes "files"
    ∷ []

-- A status without a GID is refused.
unfoldable checked_status : Result EngineStatus → Result EngineStatus
unfolding is_empty
checked_status (err e) = err e
checked_status (ok st) = if is_empty st.gid then err (plain (codes "aria2_empty_status")) else ok st

abbrev list_keys : List Text
list_keys =
    codes "gid"
    ∷ codes "status"
    ∷ codes "totalLength"
    ∷ codes "completedLength"
    ∷ codes "errorCode"
    ∷ codes "errorMessage"
    ∷ []

-- A download that aria2 does not know is no error.
unfoldable pub forgive : Result (Unit {0}) → Result (Unit {0})
forgive (ok u) = ok u
forgive (err e) = if is_gid_not_found e then ok tt else err e

module _ (c : Aria2Client) (transport : Transport) where
  unfoldable pub call : Text → List Param → List RpcRequest → Exchange Text
  unfolding signed answered
  call method params sent =
      let request : RpcRequest = record { method = method; params = signed c params } in
      (answered (transport (length sent) request), request ∷ sent)

  unfoldable pub add_uri : Codec → Text → Options → List RpcRequest → Exchange Text
  unfolding call
  add_uri codec uri options sent =
      let params = texts_param (uri ∷ []) ∷ options_param options ∷ [] in
      read_with codec.read_gid (call (codes "aria2.addUri") params sent)

  unfoldable pub tell_status : Codec → Text → List RpcRequest → Exchange EngineStatus
  unfolding call checked_status
  tell_status codec gid sent =
      let params = text_param gid ∷ texts_param status_keys ∷ [] in
      read_with (λ t. checked_status (codec.read_status t))
        (call (codes "aria2.tellStatus") params sent)

  unfoldable tell_active : Codec → List RpcRequest → Exchange (List EngineStatus)
  unfolding call
  tell_active codec sent =
      read_with codec.read_statuses
        (call (codes "aria2.tellActive") (texts_param list_keys ∷ []) sent)

  unfoldable tell_waiting : Codec → ℤ → ℤ → List RpcRequest → Exchange (List EngineStatus)
  unfolding call
  tell_waiting codec offset num sent =
      let params = number_param offset ∷ number_param num ∷ texts_param list_keys ∷ [] in
      read_with codec.read_statuses (call (codes "aria2.tellWaiting") params sent)

  unfoldable tell_stopped : Codec → ℤ → ℤ → List RpcRequest → Exchange (List EngineStatus)
  unfolding call
  tell_stopped codec offset num sent =
      let params = number_param offset ∷ number_param num ∷ texts_param list_keys ∷ [] in
      read_with codec.read_statuses (call (codes "aria2.tellStopped") params sent)

  -- A call whose result nobody reads.
  unfoldable pub command : Text → Text → List RpcRequest → Exchange (Unit {0})
  unfolding call
  command method gid sent = read_with (λ t. ok tt) (call method (text_param gid ∷ []) sent)

  unfoldable pub pause : Text → List RpcRequest → Exchange (Unit {0})
  unfolding command
  pause gid sent = command (codes "aria2.pause") gid sent

  unfoldable pub unpause : Text → List RpcRequest → Exchange (Unit {0})
  unfolding command
  unpause gid sent = command (codes "aria2.unpause") gid sent

  unfoldable pub clean_up : Text → List RpcRequest → Exchange (Unit {0})
  unfolding command forgive
  clean_up gid sent =
      let (r, sent') = command (codes "aria2.removeDownloadResult") gid sent in (forgive r, sent')

  abbrev pub clean_up_after : Text → Exchange (Unit {0}) → Exchange (Unit {0})
  clean_up_after gid (ok u, sent) = clean_up gid sent
  clean_up_after gid (err e, sent) = (err e, sent)

  unfoldable pub force_remove : Text → List RpcRequest → Exchange (Unit {0})
  unfolding command forgive clean_up
  force_remove gid sent =
      let (r, sent') = command (codes "aria2.forceRemove") gid sent in
      clean_up_after gid (forgive r, sent')

  -- How Remove goes on behind aria2.remove.
  abbrev pub after_remove : Text → Exchange (Unit {0}) → Exchange (Unit {0})
  after_remove gid (ok u, sent) = clean_up gid sent
  after_remove gid (err e, sent) =
      if is_engine_refusal e
      then force_remove gid sent
      else if is_gid_not_found e
      then clean_up gid sent
      else (err e, sent)

  unfoldable pub remove : Text → List RpcRequest → Exchange (Unit {0})
  unfolding command clean_up force_remove
  remove gid sent = after_remove gid (command (codes "aria2.remove") gid sent)

-- The client as the downloader of the service and the runner, with the transport of each step.
unfoldable pub downloader : Aria2Client → Codec → (ℕ → Transport) → Downloader
unfolding add_uri tell_status pause unpause remove
downloader c codec transport = record {
  add_uri = λ uri options n. (add_uri c (transport n) codec uri options []).0;
  tell_status = λ gid n. (tell_status c (transport n) codec gid []).0;
  pause = λ gid n. (pause c (transport n) gid []).0;
  unpause = λ gid n. (unpause c (transport n) gid []).0;
  remove = λ gid n. (remove c (transport n) gid []).0;
}
