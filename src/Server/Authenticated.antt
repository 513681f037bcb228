-- ===== src/Server/Authenticated.antt =====
-- packages/cli/src/sync-http-server.ts: what a request that is authenticated has shown, and what
-- `envelope` reads.
use html_inbox.Common.{
  ℕ, ◌+◌, ◌≤◌, ◌≡◌, ◌⊎◌, sym, ap, ◌∙◌, arith, true, not, ◌||◌, List, [], ◌∷◌, ◌++◌, Option, Text,
  js, text_eq, text_eq_sound, length, ltb, ◌==◌, Result, ok, err, ◌>>=◌, reject, reject-eq-ok,
  >>=-eq-ok, Result-cases, inl, inr, append_assoc, append-nil,
}
use html_inbox.Json.{Json}
use html_inbox.Model.{SyncRoute, RouteAuthorization, Platform}
use html_inbox.Wire.{RequestBinding, unauthorized}
use html_inbox.Wire.Ordered.{length-append}
use html_inbox.Wire.Tokens.{parse_binding, parse_token}
use html_inbox.Server.{Verified}
use html_inbox.Server.Requests.{
  Endpoint, Head, Local, authenticate, bearer_token, content_length, credentials_match, envelope,
  is_allowed, is_type, read_chunks, revision_changed, verify_caller, as_unauthorized,
  authorization_of,
}

-- The bytes of the chunks in their order.
abbrev pub joined : List (List ℕ) → List ℕ
joined [] = []
joined (chunk ∷ chunks) = chunk ++ joined chunks

read_chunks-eq-ok :
    (maximum declared : ℕ) (chunks : List (List ℕ)) (bytes result : List ℕ)
    → read_chunks maximum declared chunks bytes ≡ ok result
    → length bytes ≤ maximum
    → (bytes ++ joined chunks ≡ result) × (length result ≤ maximum)
unfolding read_chunks
read_chunks-eq-ok maximum declared [] bytes result e small =
    (append-nil bytes ∙ ground arith, ground arith)
read_chunks-eq-ok maximum declared (chunk ∷ chunks) bytes result e small =
    let (u, fits, rest) =
      >>=-eq-ok
        (reject
          (ltb maximum (length bytes + length chunk) || ltb declared (length bytes + length chunk))
          _)
        _ e in
    let next : length (bytes ++ chunk) ≤ maximum =
      ground (arith, length-append bytes chunk, reject-eq-ok _ _ fits) in
    let (whole, few) =
      read_chunks-eq-ok maximum declared chunks (bytes ++ chunk) result rest next in
    (sym (append_assoc bytes chunk (joined chunks)) ∙ whole, few)

-- The body that `envelope` reads is all of the chunks that arrive, as long as it was declared, and within
-- the limit.
pub envelope-IsRead :
    (head : Head) (maximum : ℕ) (chunks : List (List ℕ)) (bytes : List ℕ)
    → envelope head maximum chunks ≡ ok bytes
    → (bytes ≡ joined chunks)
      × (length bytes ≤ maximum)
      × (content_length head.content_length maximum ≡ ok (length bytes))
unfolding envelope
envelope-IsRead head maximum chunks bytes e =
    let (u, typed, e1) =
      >>=-eq-ok (reject (not (is_type (js "application/json") head.content_type)) _) _ e in
    let (declared, sized, e2) = >>=-eq-ok (content_length head.content_length maximum) _ e1 in
    let (all_bytes, got, e3) = >>=-eq-ok (read_chunks maximum declared chunks []) _ e2 in
    let (v, exact, e4) = >>=-eq-ok (reject (not (length all_bytes == declared)) _) _ e3 in
    let (whole, few) = read_chunks-eq-ok maximum declared chunks [] all_bytes got (omega arith) in
    let same : all_bytes ≡ bytes = ground arith in
    let equal : length all_bytes ≡ declared = ground (arith, reject-eq-ok _ _ exact) in
    (ground (arith, whole), ground (arith, few), rw (sym same, equal) sized)

module _ ⦃p : Platform⦄ (peer_id : Text) (revision : Option ℕ) (credentials : SyncRoute → Json)
    (endpoint : Endpoint) (head : Head) where
  -- What is known of the caller and its route.
  pub record IsVerified (binding : RequestBinding) (token : Text) (route : SyncRoute)
      (verified : Verified) : Type 0 where
    pub same_auth : verified.auth ≡ authorization_of binding
    pub same_binding : verified.binding ≡ binding
    pub same_route : verified.route ≡ route
    pub is_target : binding.target_peer_id ≡ peer_id
    pub expected : Text
    pub issued : parse_token (credentials route) ≡ ok expected
    pub proven : p.digest token ≡ p.digest expected
    pub served : is_allowed endpoint route.direction head.method ≡ true

  verify_caller-IsVerified :
      (binding : RequestBinding) (token : Text) (route : SyncRoute) (local : Local)
      (verified : Verified)
      → verify_caller peer_id revision credentials endpoint head binding token route local
        ≡ ok verified
      → IsVerified binding token route verified
  unfolding verify_caller credentials_match
  verify_caller-IsVerified binding token route local verified e =
      let (u, steady, e1) =
        >>=-eq-ok (reject (revision_changed revision local.runtime_revision) _) _ e in
      let (alive, there, e0) = >>=-eq-ok (reject head.destroyed _) _ e1 in
      let (expected, issued, e2) = >>=-eq-ok (parse_token (credentials route)) _ e0 in
      let (v, bound, e3) =
        >>=-eq-ok
          (reject
            (not (text_eq binding.target_peer_id peer_id)
              || not (text_eq (p.digest token) (p.digest expected)))
            _)
          _ e2 in
      let (w, served, e4) =
        >>=-eq-ok (reject (not (is_allowed endpoint route.direction head.method)) _) _ e3 in
      let clear = reject-eq-ok _ _ bound in
      record {
        same_auth = ground arith;
        same_binding = ground arith;
        same_route = ground arith;
        is_target = text_eq_sound binding.target_peer_id peer_id (ground arith);
        expected = expected;
        issued = issued;
        proven = text_eq_sound (p.digest token) (p.digest expected) (ground arith);
        served = ground (arith, reject-eq-ok _ _ served);
      }

  module _ (decoded : Text → Option Json)
      (admit : RouteAuthorization → Result (SyncRoute × Local)) where
    -- What an authenticated request has shown: its binding, and a credential whose digest is that of the
    -- credential of the route that its authorization is admitted on.
    pub record IsAuthenticated (verified : Verified) : Type 0 where
      pub binding : RequestBinding
      pub token : Text
      pub route : SyncRoute
      pub local : Local
      pub read : parse_binding decoded head.binding ≡ ok binding
      pub shown : bearer_token head.authorization ≡ ok token
      pub admitted : admit (authorization_of binding) ≡ ok (route, local)
      pub is_verified : IsVerified binding token route verified

    attempt : Result Verified
    attempt = do
      binding ← parse_binding decoded head.binding
      token ← bearer_token head.authorization
      found ← admit (authorization_of binding)
      verify_caller peer_id revision credentials endpoint head binding token found.0 found.1

    attempt-IsAuthenticated :
        (verified : Verified) → attempt ≡ ok verified → IsAuthenticated verified
    unfolding attempt
    attempt-IsAuthenticated verified e =
        let (binding, read, e1) = >>=-eq-ok (parse_binding decoded head.binding) _ e in
        let (token, shown, e2) = >>=-eq-ok (bearer_token head.authorization) _ e1 in
        let (found, admitted, e3) = >>=-eq-ok (admit (authorization_of binding)) _ e2 in
        record {
          binding = binding;
          token = token;
          route = found.0;
          local = found.1;
          read = read;
          shown = shown;
          admitted = admitted;
          is_verified = verify_caller-IsVerified binding token found.0 found.1 verified e3;
        }

    -- A request is authenticated, having shown all of that, or is answered in one way whatever it lacks.
    pub authenticate-IsAuthenticated :
        ((verified : Verified) × (authenticate peer_id revision credentials decoded admit endpoint
              head
            ≡ ok verified)
          × IsAuthenticated verified)
        ⊎ (authenticate peer_id revision credentials decoded admit endpoint head ≡ err unauthorized)
    unfolding authenticate attempt
    authenticate-IsAuthenticated = elim (Result-cases attempt) [
      | inl (verified, e) ↦ inl (verified, ap as_unauthorized e, attempt-IsAuthenticated verified e)
      | inr (thrown, e) ↦ inr (ap as_unauthorized e)
    ]
