-- ===== src/Github/State.antt =====
-- When a callback is accepted, and where it returns to.
use traceroot.Access.{go, Db, stop}
use traceroot.Prelude.{
  false≢true, String, Bool-cases, eq_iff, sym, inl, some, refl, false, inr, Option, ◌∙◌, ap, List,
  Option-cases, ◌⊎◌, arith, none, ◌↔◌, ◌≡◌, true,
}
use traceroot.Github.{
  ValidationResult, accepted, get, GithubEnv, Attached, InstallationRow, params_status,
  CallbackRequest, stored_state, ParamsError, to_confirm, processed, is_direct_github_install,
  is_given, CallbackParams, same_opt, validate_callback_params,
}

-- A callback is accepted exactly if it has a code and either is a direct installation, which claims an
-- installation with the action install and has neither a state nor a stored one, or has a state that
-- equals the stored one.
pub valid_iff :
    (p : CallbackParams)
    → ((validate_callback_params p).error ≡ none) ↔ (
        (is_given p.code ≡ true)
        × ((is_direct_github_install p ≡ true)
            ⊎ ((is_given p.state ≡ true)
                × (is_given p.stored_state ≡ true)
                × (same_opt p.stored_state p.state ≡ true))))
unfolding validate_callback_params
valid_iff p = ground arith

same_opt-eq : (a b : Option String) → same_opt a b ≡ true → a ≡ b
same_opt-eq none none h = refl
same_opt-eq (some a) (some b) h = ap some ((eq_iff a b).0 h)
same_opt-eq none (some b) h = cc
same_opt-eq (some a) none h = cc

-- the stored state is one of the cookies that equals the state, or none
stored_state-cookie :
    (state auth_state install_state : Option String)
    → is_given (stored_state state auth_state install_state) ≡ true
    → (state ≡ auth_state) ⊎ (state ≡ install_state)
unfolding stored_state
stored_state-cookie state auth_state install_state h =
    elim (Bool-cases (same_opt state auth_state)) [
      | inl e ↦ inl (same_opt-eq state auth_state e)
      | inr e ↦ elim (Bool-cases (same_opt state install_state)) [
        | inl f ↦ inr (same_opt-eq state install_state f)
        | inr f ↦ absurd (false≢true (rw (stored_state, e, f) at h))
      ]
    ]

direct_eq :
    (p : CallbackParams)
    → (validate_callback_params p).error ≡ none
    → (validate_callback_params p).is_direct_install ≡ is_direct_github_install p
unfolding validate_callback_params
direct_eq p h = ground arith

stateless_store : (a b : Option String) → is_given (stored_state none a b) ≡ false
unfolding stored_state
stateless_store none b = refl
stateless_store (some a) none = refl
stateless_store (some a) (some b) = refl

direct_install :
    (p : CallbackParams)
    → same_opt p.setup_action (some "install") ≡ true
    → is_given p.installation_id ≡ true
    → is_given p.stored_state ≡ false
    → is_given p.state ≡ false
    → is_direct_github_install p ≡ true
unfolding is_direct_github_install
direct_install p action claimed kept stateless = rw (action, claimed, kept, stateless) refl

direct_valid :
    (p : CallbackParams)
    → is_given p.code ≡ true
    → is_direct_github_install p ≡ true
    → validate_callback_params p ≡ accepted true
unfolding validate_callback_params
direct_valid p coded direct = rw (coded, direct) refl

module _ (env : GithubEnv) (db : Db) (rows : List InstallationRow) (r : CallbackRequest) where
  -- what the GET handler answers by the validation
  get-processed :
      (p : CallbackParams) (a : Attached)
      → get env db rows r p ≡ processed (go a)
      → ((validate_callback_params p).error ≡ none)
        × ((validate_callback_params p).is_direct_install ≡ false)
  unfolding get
  get-processed p a h = elim (Option-cases (validate_callback_params p).error) [
    | inr (e, f) ↦ absurd (refused_not e (rw (get, f) at h))
    | inl f ↦ elim (Bool-cases (validate_callback_params p).is_direct_install) [
      | inl g ↦ absurd (confirm_not (rw (get, f, g) at h))
      | inr g ↦ (f, g)
    ]
  ]
    where
      refused_not : (e : ParamsError) → processed (stop (params_status e)) ≡ processed (go a) → ⊥
      refused_not e k = cc

      confirm_not : to_confirm ≡ processed (go a) → ⊥
      confirm_not k = cc

  -- The GET handler goes on to the callback only for a request whose state is that of a cookie of this
  -- browser, the one of the login or the one of the installation.
  pub get_needs_state :
      (p : CallbackParams) (auth_state install_state : Option String) (a : Attached)
      → p.stored_state ≡ stored_state p.state auth_state install_state
      → get env db rows r p ≡ processed (go a)
      → (is_given p.state ≡ true) × ((p.state ≡ auth_state) ⊎ (p.state ≡ install_state))
  get_needs_state p auth_state install_state a stored h =
      let (valid, indirect) = get-processed p a h in
      let (_, how) = (valid_iff p).0 valid in
      elim how [
        | inl direct ↦ absurd (false≢true (sym indirect ∙ direct_eq p valid ∙ direct))
        | inr (given, kept, _) ↦ (
          given,
          stored_state-cookie p.state auth_state install_state (ap is_given (sym stored) ∙ kept),
        )
      ]

  -- A request with a code and without a state, with the action install and an installation, is taken
  -- for a direct installation whatever state cookies the browser holds.
  pub direct_ignores_cookies :
      (p : CallbackParams) (auth_state install_state : Option String)
      → p.stored_state ≡ stored_state p.state auth_state install_state
      → p.state ≡ none
      → p.setup_action ≡ some "install"
      → is_given p.code ≡ true
      → is_given p.installation_id ≡ true
      → get env db rows r p ≡ to_confirm
  unfolding get
  direct_ignores_cookies p auth_state install_state stored stateless action coded claimed =
      let kept : is_given p.stored_state ≡ false =
        ap is_given
          (stored ∙ ap (λ (t : Option String). stored_state t auth_state install_state) stateless)
        ∙ stateless_store auth_state install_state in
      let direct =
        direct_install p (ap (λ (t : Option String). same_opt t (some "install")) action) claimed
          kept (ap is_given stateless) in
      let v = direct_valid p coded direct in
      rw
        (
          get,
          ap (λ (x : ValidationResult). x.error) v,
          ap (λ (x : ValidationResult). x.is_direct_install) v,
        )
        refl
