-- ===== src/Core/Dispatch/Guarded.antt =====
-- crates/roci-core/src/routes.rs: no handler runs before its permission is checked.
use mathlib.Core.Path.{subst}
use roci.Base.{Bool, Option, ap, false, inl, inr, none, refl, some, sym, true, ◌&&◌, ◌∙◌, ◌≡◌, ◌⊎◌}
use roci.Base.Eq.{Text, text_eq}
use roci.Base.Result.{Result, Result-cases, err, ok}
use roci.Base.Tests.{Option-cases}
use roci.Core.Actions.{Action, delete_action, pull, push}
use roci.Core.Actions.Laws.{action_beq}
use roci.Core.Auth.{Auth, Principal, allows}
use roci.Core.Auth.Refusals.{authorize_iff}
use roci.Core.Dispatch.{
  Call, check_access, delete_blob, delete_manifest, dispatch, dispatch_parsed, finish_upload,
  get_blob, get_manifest, list_referrers, list_tags, patch_upload, put_manifest, run_call, select,
  start_upload, upload_status,
}
use roci.Core.Error.{ApiError, name_unknown, spec}
use roci.Core.Routes.{
  Method, Parsed, blob, delete, get_method, head, manifest_ref, parse_path, patch, post, put,
  referrers, required_action, tags_list, upload_session, upload_start,
}

-- Does the handler change what is stored?
abbrev pub is_write : Call → Bool
is_write (start_upload repo) = true
is_write (finish_upload repo id) = true
is_write (put_manifest repo reference) = true
is_write (patch_upload repo id) = true
is_write (delete_blob repo digest) = true
is_write (delete_manifest repo reference) = true
is_write _ = false

-- The repository that a handler works on.
abbrev pub target : Call → Text
target (get_blob repo digest is_head) = repo
target (get_manifest repo reference is_head) = repo
target (list_tags repo) = repo
target (list_referrers repo digest) = repo
target (upload_status repo id) = repo
target (start_upload repo) = repo
target (finish_upload repo id) = repo
target (put_manifest repo reference) = repo
target (patch_upload repo id) = repo
target (delete_blob repo digest) = repo
target (delete_manifest repo reference) = repo

-- The permission fits the handler: its repository, and more than `pull` if it writes.
abbrev pub Fits : Call → Text → Action → Type 0
Fits call repo action = (target call ≡ repo) × ((is_write call && action_beq action pull) ≡ false)

select-required :
    (m : Method) (parsed : Parsed) (call : Call)
    → select m parsed ≡ some call
    → (repo : Text) × (action : Action) × (required_action m parsed ≡ some (repo, action))
      × (target call ≡ repo)
      × ((is_write call && action_beq action pull) ≡ false)
unfolding select required_action
select-required get_method (blob r d) call h = (r, pull, refl, cc, cc)
select-required head (blob r d) call h = (r, pull, refl, cc, cc)
select-required get_method (manifest_ref r t) call h = (r, pull, refl, cc, cc)
select-required head (manifest_ref r t) call h = (r, pull, refl, cc, cc)
select-required get_method (tags_list r) call h = (r, pull, refl, cc, cc)
select-required get_method (referrers r d) call h = (r, pull, refl, cc, cc)
select-required get_method (upload_session r i) call h = (r, push, refl, cc, cc)
select-required post (upload_start r) call h = (r, push, refl, cc, cc)
select-required put (upload_session r i) call h = (r, push, refl, cc, cc)
select-required put (manifest_ref r t) call h = (r, push, refl, cc, cc)
select-required patch (upload_session r i) call h = (r, push, refl, cc, cc)
select-required delete (blob r d) call h = (r, delete_action, refl, cc, cc)
select-required delete (manifest_ref r t) call h = (r, delete_action, refl, cc, cc)
select-required m parsed call h = cc

-- The server is open, or the principal is allowed.
abbrev pub Permits : Option Auth → Principal → Text → Action → Type 0
Permits none p repo action = Unit {0}
Permits (some auth) p repo action = allows auth p repo action ≡ true

module _ (header_value : Text → Option Text) {S Response : Type 0}
    (run : Call → S → S × Result ApiError Response) where
  check_access-Permits :
      (auth : Option Auth) (p : Principal) (repo : Text) (action : Action)
      → check_access header_value run auth p (some (repo, action)) ≡ ok tt
      → Permits auth p repo action
  unfolding check_access
  check_access-Permits none p repo action h = tt
  check_access-Permits (some auth) p repo action h =
      (authorize_iff header_value auth p repo action).0 h

  -- What a request did: it was refused and changed nothing, or a handler ran on the state as it was,
  -- for a permitted action.
  abbrev pub IsGuarded :
      Option Auth → Principal → Method → Parsed → S → S × Result ApiError Response → Type 0
  IsGuarded auth p m parsed st answer =
      ((e : ApiError) × (answer ≡ (st, err e)))
      ⊎ ((call : Call) × (repo : Text) × (action : Action) × (answer ≡ run call st)
          × (select m parsed ≡ some call)
          × Fits call repo action
          × Permits auth p repo action)

  run_call-IsGuarded :
      (auth : Option Auth) (p : Principal) (m : Method) (parsed : Parsed) (st : S)
      → check_access header_value run auth p (required_action m parsed) ≡ ok tt
      → IsGuarded auth p m parsed st (run_call header_value run (select m parsed) st)
  unfolding run_call
  run_call-IsGuarded auth p m parsed st h = elim (Option-cases (select m parsed)) [
    | inl nothing ↦ inl (spec name_unknown, rw nothing)
    | inr (call, found) ↦
        let (repo, action, required, same, strong) = select-required m parsed call found in
        inr (
          call,
          repo,
          action,
          rw found,
          found,
          (same, strong),
          check_access-Permits auth p repo action
              (ap (check_access header_value run auth p) (sym required) ∙ h),
        )
  ]

  dispatch_parsed-IsGuarded :
      (auth : Option Auth) (p : Principal) (m : Method) (parsed : Parsed) (st : S)
      → IsGuarded auth p m parsed st (dispatch_parsed header_value run auth p m parsed st)
  unfolding dispatch_parsed
  dispatch_parsed-IsGuarded auth p m parsed st =
      elim (Result-cases (check_access header_value run auth p (required_action m parsed))) [
        | inl (t, passed) ↦
            subst (IsGuarded auth p m parsed st) (sym (rw (passed, dispatch_parsed)))
              (run_call-IsGuarded auth p m parsed st passed)
        | inr (e, refused) ↦ inl (e, rw (refused, dispatch_parsed))
      ]

  -- `dispatch` either answers an error and leaves the state alone, or runs one handler on the state as
  -- it was: the one for the method and the parsed path, on a repository for which the principal is
  -- allowed an action (if the server authenticates at all), which is not `pull` if the handler writes.
  pub dispatch-IsGuarded :
      (auth : Option Auth) (p : Principal) (m : Method) (rest : Text) (st : S)
      → ((e : ApiError) × (parse_path rest ≡ err e)
          × (dispatch header_value run auth p m rest st ≡ (st, err e)))
        ⊎ ((parsed : Parsed) × (parse_path rest ≡ ok parsed)
            × IsGuarded auth p m parsed st (dispatch header_value run auth p m rest st))
  unfolding dispatch
  dispatch-IsGuarded auth p m rest st = elim (Result-cases (parse_path rest)) [
    | inl (parsed, is_parsed) ↦ inr (
      parsed,
      is_parsed,
      subst (IsGuarded auth p m parsed st) (sym (rw (is_parsed, dispatch)))
          (dispatch_parsed-IsGuarded auth p m parsed st),
    )
    | inr (e, failed_parse) ↦ inl (e, failed_parse, rw (failed_parse, dispatch))
  ]
