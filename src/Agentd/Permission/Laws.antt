-- ===== src/Agentd/Permission/Laws.antt =====
-- Each permission request is answered at most once.
use agnet.Common.{
  ℕ, ◌+◌, ◌≤◌, ◌≡◌, refl, sym, ap, arith, Bool, true, false, ◌&&◌, none, some, List, [], ◌∷◌,
  String, ◌==◌, if◌then◌else◌, Option-cases, Bool-cases, inl, inr,
}
use agnet.Common.Text.{◌=s◌, eq_iff}
use agnet.Common.Map.{lookup, delete, lookup-insert, lookup-delete, lookup-delete_self}
use agnet.Agentd.Permission.{
  PermissionRequest, PermissionResponse, PermissionManager, new_permission_manager, add_request,
  get_request, remove_request, handle_response,
}

abbrev pub is_pending : PermissionManager → String → Bool
is_pending pm id = elim (get_request pm id) [ none ↦ false | some _ ↦ true ]

handle_response-missing :
    (pm : PermissionManager) (resp : PermissionResponse)
    → lookup resp.request_id pm.pending_requests ≡ none
    → handle_response pm resp ≡ (pm, false)
unfolding handle_response
handle_response-missing pm resp e = rw (e, handle_response)

abbrev removed : PermissionManager → String → PermissionManager
removed pm id = record { pending_requests = delete id pm.pending_requests }

handle_response-pending :
    (pm : PermissionManager) (resp : PermissionResponse) (req : PermissionRequest)
    → lookup resp.request_id pm.pending_requests ≡ some req
    → handle_response pm resp ≡ (removed pm resp.request_id, true)
unfolding handle_response
handle_response-pending pm resp req e = rw (e, handle_response)

not_pending :
    (pm : PermissionManager) (id : String)
    → lookup id pm.pending_requests ≡ none
    → is_pending pm id ≡ false
unfolding get_request
not_pending pm id e = ground arith

pending :
    (pm : PermissionManager) (id : String) (req : PermissionRequest)
    → lookup id pm.pending_requests ≡ some req
    → is_pending pm id ≡ true
unfolding get_request
pending pm id req e = ground arith

get_request_missing :
    (pm : PermissionManager) (k id : String)
    → lookup k pm.pending_requests ≡ none
    → get_request pm id ≡ (if k =s id then none else get_request pm id)
unfolding get_request
get_request_missing pm k id e = ground (arith, eq_iff k id)

-- A response is taken exactly when its request is pending. It removes that request and leaves every
-- other one as it was; a response that is not taken changes nothing. A second response to the same
-- request is refused.
pub handle_response_once :
    (pm : PermissionManager) (resp : PermissionResponse) (id : String)
    → ((handle_response pm resp).1 ≡ is_pending pm resp.request_id)
      × (get_request (handle_response pm resp).0 id
          ≡ (if resp.request_id =s id then none else get_request pm id))
      × (handle_response (handle_response pm resp).0 resp ≡ ((handle_response pm resp).0, false))
unfolding get_request
handle_response_once pm resp id = elim (Option-cases (lookup resp.request_id pm.pending_requests)) [
  | inl e ↦ (
    rw (handle_response-missing pm resp e) (sym (not_pending pm resp.request_id e)),
    rw (handle_response-missing pm resp e) (get_request_missing pm resp.request_id id e),
    rw (handle_response-missing pm resp e) (handle_response-missing pm resp e),
  )
  | inr (req, e) ↦ (
    rw (handle_response-pending pm resp req e) (sym (pending pm resp.request_id req e)),
    rw (handle_response-pending pm resp req e)
        (lookup-delete resp.request_id id pm.pending_requests),
    rw (handle_response-pending pm resp req e) (
        handle_response-missing (removed pm resp.request_id) resp
          (lookup-delete_self resp.request_id pm.pending_requests)),
  )
]

-- A stored request is found under its id, stamped with the time if it carried none, and no other
-- request changes.
pub add_request-get_request :
    (now : ℕ) (pm : PermissionManager) (req : PermissionRequest) (id : String)
    → get_request (add_request now pm req) id ≡ (
        if req.request_id =s id
        then some (if req.timestamp == 0 then record req { timestamp = now } else req)
        else get_request pm id)
unfolding add_request get_request
add_request-get_request now pm req id = elim (Bool-cases (req.timestamp == 0)) [
  | inl e ↦
      rw e (lookup-insert req.request_id id (record req { timestamp = now }) pm.pending_requests)
  | inr e ↦ rw e (lookup-insert req.request_id id req pm.pending_requests)
]

remove_request-get_request :
    (pm : PermissionManager) (k id : String)
    → get_request (remove_request pm k) id ≡ (if k =s id then none else get_request pm id)
unfolding remove_request get_request
remove_request-get_request pm k id = lookup-delete k id pm.pending_requests

new_is_empty : (id : String) → lookup id new_permission_manager.pending_requests ≡ none
unfolding new_permission_manager lookup
new_is_empty id = refl

-- What happens to a manager, in order.
pub data Op : Type 0 where
  asks : ℕ → PermissionRequest → Op
  answers : PermissionResponse → Op
  drops : String → Op

pub step : PermissionManager → Op → PermissionManager
step pm (asks now req) = add_request now pm req
step pm (answers resp) = (handle_response pm resp).0
step pm (drops id) = remove_request pm id

abbrev one_if : Bool → ℕ
one_if true = 1
one_if false = 0

-- How often the request `id` was asked.
pub asked : String → List Op → ℕ
asked id [] = 0
asked id (asks now req ∷ ops) = one_if (req.request_id =s id) + asked id ops
asked id (_ ∷ ops) = asked id ops

-- How often a response to the request `id` was taken.
pub taken : String → PermissionManager → List Op → ℕ
taken id pm [] = 0
taken id pm (answers resp ∷ ops) =
    one_if (resp.request_id =s id && (handle_response pm resp).1)
    + taken id (step pm (answers resp)) ops
taken id pm (op ∷ ops) = taken id (step pm op) ops

taken_bound :
    (id : String) (pm : PermissionManager) (ops : List Op)
    → taken id pm ops ≤ one_if (is_pending pm id) + asked id ops
unfolding taken asked step
taken_bound id pm [] = omega arith
taken_bound id pm (asks now req ∷ ops) =
    ground
      (arith, taken_bound id (add_request now pm req) ops, add_request-get_request now pm req id)
taken_bound id pm (answers resp ∷ ops) = ground (
  arith,
  taken_bound id (handle_response pm resp).0 ops,
  handle_response_once pm resp id,
  eq_iff resp.request_id id,
)
taken_bound id pm (drops k ∷ ops) =
    ground (arith, taken_bound id (remove_request pm k) ops, remove_request-get_request pm k id)

-- From a new manager, whatever is asked, answered and dropped and in whatever order: a request's
-- responses are taken at most as often as it was asked.
pub taken-le-asked :
    (id : String) (ops : List Op) → taken id new_permission_manager ops ≤ asked id ops
taken-le-asked id ops = omega (arith, taken_bound id new_permission_manager ops, nothing_pending)
  where
    nothing_pending : one_if (is_pending new_permission_manager id) ≡ 0
    nothing_pending = ap one_if (not_pending new_permission_manager id (new_is_empty id))
