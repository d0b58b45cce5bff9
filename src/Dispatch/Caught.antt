-- ===== src/Dispatch/Caught.antt =====
-- The exceptions that leave ServletDispatch, and the messages that it deletes.
use windnet_game.Prelude.{
  ◌≡◌, ◌≢◌, refl, ◌↔◌, inl, inr, Bool, some, String, find, string_key, Option-cases, sym, ◌∙◌, ap,
}
use windnet_game.Prelude.Outcome.{Outcome, fault, thrown, ok, Outcome-cases, bind-ok, ok-injective}
use windnet_game.Bson.{Object, get_string_val, get_object_val}
use windnet_game.Dispatch.{Servlet, init_table, is_some, caught, dispatch, dispatch_message}

-- The request's head reads as a command that the table has, or as one that it has not.
abbrev pub Known : Object → String → Servlet → Type 0
Known request command servlet =
    (get_string_val "Command" request ≡ ok command) × (find command init_table ≡ some servlet)

caught-ne-thrown {ℓ} : {W : Type ℓ} (w : W) (o : Outcome (Bool × W)) → caught w o ≢ thrown
caught-ne-thrown w fault e = cc
caught-ne-thrown w thrown e = cc
caught-ne-thrown w (ok r) e = cc

module _ {ℓ} {W : Type ℓ}
    (do_request : Servlet → String → String → Object → W → Outcome (Bool × W)) where
  dispatch_listed :
      (request : Object) (w : W) (command token : String) (servlet : Servlet) (body : Object)
      → Known request command servlet
      → get_string_val "Token" request ≡ ok token
      → get_object_val "Body" request ≡ ok body
      → dispatch do_request request w ≡ caught w (do_request servlet command token body w)
  unfolding dispatch
  dispatch_listed request w command token servlet body (c, k) t b = rw (dispatch, c, t, k, b) refl

  -- Whatever the handlers do, `dispatch` of a request whose command the table has, and whose token
  -- is a string or missing, throws if and only if reading the request's body throws.
  dispatch-throws :
      (request : Object) (w : W) (command token : String) (servlet : Servlet)
      → Known request command servlet
      → get_string_val "Token" request ≡ ok token
      → (dispatch do_request request w ≡ thrown) ↔ (get_object_val "Body" request ≡ thrown)
  unfolding dispatch
  dispatch-throws request w command token servlet (c, k) t =
      elim (Outcome-cases (get_object_val "Body" request)) [
        | inl f ↦
            let e : dispatch do_request request w ≡ fault = rw (dispatch, c, t, k, f) refl in
            (λ h. absurd (cc), λ h. absurd (cc))
        | inr (inl th) ↦ (λ h. th, λ h. rw (dispatch, c, t, k, th) refl)
        | inr (inr (body, b)) ↦
            let e = dispatch_listed request w command token servlet body (c, k) t b in
            (λ h. absurd (caught-ne-thrown w _ (sym e ∙ h)), λ h. absurd (cc))
      ]

  -- Whatever the handlers do, a `dispatch_message` that returns gives what `dispatch` of the same
  -- request gives, and deletes the message if and only if the table has the command.
  pub dispatch_message-dispatch :
      (request : Object) (w w' : W) (command : String) (ret deleted : Bool)
      → get_string_val "Command" request ≡ ok command
      → dispatch_message do_request request w ≡ ok (ret, deleted, w')
      → (dispatch do_request request w ≡ ok (ret, w'))
        × (deleted ≡ is_some (find command init_table))
  unfolding dispatch dispatch_message
  dispatch_message-dispatch request w w' command ret deleted c e =
      let (proto, p, e₁) = bind-ok (get_string_val "Command" request) _ _ e in
      let same : proto ≡ command = ok-injective _ _ (sym p ∙ c) in
      let (token, t, e₂) = bind-ok (get_string_val "Token" request) _ _ e₁ in
      elim (Option-cases (find proto init_table)) [
        | inl n ↦
            let e₃ = ok-injective _ _ (rw n at e₂) in
            (
              rw (dispatch, p, t, n, ap (λ x. x.0) e₃, ap (λ x. x.2) e₃) refl,
              rw (sym same, n, ap (λ x. x.1) e₃) refl,
            )
        | inr (servlet, k) ↦
            let (body, b, e₃) = bind-ok (get_object_val "Body" request) _ _ (rw k at e₂) in
            let (name, m, e₄) = bind-ok (get_string_val "Name" body) _ _ e₃ in
            let (r, h, e₅) = bind-ok (caught w (do_request servlet proto token body w)) _ _ e₄ in
            let e₆ = ok-injective _ _ e₅ in
            (
              dispatch_listed request w proto token servlet body (p, k) t b
                  ∙ h
                  ∙ ap (λ x. ok (x.0, x.2)) e₆,
              rw (sym same, k) (sym (ap (λ x. x.1) e₆)),
            )
      ]
