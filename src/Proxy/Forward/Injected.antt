-- ===== src/Proxy/Forward/Injected.antt =====
-- What the inner server of mcps-proxy/src/proxy.rs gets to read.
use mcps.Prelude.{
  ℕ, Str, codes, str_eq, List, ◌≡◌, refl, ◌∙◌, true, false, some, none, Option-cases, inl, inr, ok,
  >>=-eq-ok, arith,
}
use mcps.Prelude.Int.{ℤ}
use mathlib.Core.Option.{some-injective}
use mcps.Core.Ids.{verified_meta_key}
use mcps.Core.Json.{
  Value, Members, null, bool, number, string, array, object, no_members, member, get, get_member,
  as_object, insert_member, index_mut, value_or_null,
}
use mcps.Core.Json.Writes.{
  get_member-insert_member, get_member-insert_member_other, members_or_none, index_mut-exact,
  as_object-some,
}
use mcps.Core.Constraints.{contains}
use mcps.Core.Pipeline.{VerifiedRequest}
use mcps.Core.Failure.{or_refuse, or_panic, or_refused, or_refuse-ok, or_panic-ok, or_refused-ok}
use mcps.Core.Libraries.{Libraries}
use mcps.Proxy.Scrub.{proxy_owned_meta_keys, scrub_proxy_owned_meta}
use mcps.Proxy.Scrub.Clean.{
  CleanValue, CleanMembers, scrub-CleanValue, CleanMembers-get, CleanMembers-owned,
  CleanValue-members,
}
use mcps.Proxy.Forward.{
  build_verified_context, with_context, inject_context, build_forwarded_request,
}

-- The block of the proxy is there, and no other key that the proxy alone writes.
pub record Owned (meta context : Value) : Type 0 where
  pub context_of : get meta verified_meta_key ≡ some context
  pub no_other :
      (key : Str)
      → contains proxy_owned_meta_keys key ≡ true
      → str_eq verified_meta_key key ≡ false
      → get meta key ≡ none

inserted-Owned :
    (context : Value) (ms : Members)
    → ((key : Str) → contains proxy_owned_meta_keys key ≡ true → get_member ms key ≡ none)
    → Owned (object (insert_member verified_meta_key context ms)) context
unfolding get
inserted-Owned context ms h = record {
  context_of = get_member-insert_member verified_meta_key context ms;
  no_other = λ key owned d.
      get_member-insert_member_other verified_meta_key key context ms d ∙ h key owned;
}

with_context-Owned :
    (context v meta : Value)
    → CleanValue true v
    → with_context context v ≡ some meta
    → Owned meta context
unfolding with_context insert_member get_member members_or_none
with_context-Owned context v meta clean h = elim (Option-cases (as_object v)) [
  | inl p ↦
      let written : object (member verified_meta_key context no_members) ≡ meta =
        ground (arith, p) in
      rw (← written) (inserted-Owned context no_members (λ key owned. refl))
  | inr (ms, p) ↦
      let is_object : v ≡ object ms = as_object-some v ms p in
      let written : object (insert_member verified_meta_key context ms) ≡ meta =
        ground (arith, p) in
      let clean' : CleanValue true (object ms) = rw is_object at clean in
      let members : CleanMembers true ms = CleanValue-members true (object ms) clean' in
      rw (← written)
        (inserted-Owned context ms (λ key owned. CleanMembers-owned ms key members owned))
]

none_beside :
    (context meta : Value)
    → object (member verified_meta_key context no_members) ≡ meta
    → (key : Str) → str_eq verified_meta_key key ≡ false
    → get meta key ≡ get_member no_members key
unfolding get insert_member
none_beside context meta h key d =
    rw (← h) (get_member-insert_member_other verified_meta_key key context no_members d)

-- Every other member of the given `_meta` stays.
with_context-rest :
    (context v meta : Value)
    → with_context context v ≡ some meta
    → (key : Str) → str_eq verified_meta_key key ≡ false
    → get meta key ≡ get_member (members_or_none v) key
unfolding with_context members_or_none get as_object
with_context-rest context (object ms) meta h key d =
    rw (← some-injective _ _ h) (get_member-insert_member_other verified_meta_key key context ms d)
with_context-rest context null meta h key d = none_beside context meta (some-injective _ _ h) key d
with_context-rest context (bool b) meta h key d =
    none_beside context meta (some-injective _ _ h) key d
with_context-rest context (number n) meta h key d =
    none_beside context meta (some-injective _ _ h) key d
with_context-rest context (string t) meta h key d =
    none_beside context meta (some-injective _ _ h) key d
with_context-rest context (array vs) meta h key d =
    none_beside context meta (some-injective _ _ h) key d

pub record Injected (l : Libraries) (server_signer : Str) (raw : List ℕ)
    (verified : VerifiedRequest) (now : ℤ) (bytes : List ℕ) : Type 0 where
  pub request : Value
  pub parsed : l.externals.from_slice raw ≡ some request
  pub context : Value
  pub context_of : build_verified_context l.binding_to_value server_signer verified now ≡ ok context
  pub message : Value
  pub serialized : l.to_vec message ≡ some bytes
  pub params : Value
  pub params_of : get message (codes "params") ≡ some params
  pub meta : Value
  pub meta_of : get params (codes "_meta") ≡ some meta
  pub owned : Owned meta context
  -- Beside them, the message is the one that was scrubbed.
  pub rest :
      (key : Str)
      → str_eq (codes "params") key ≡ false
      → get message key ≡ get_member (members_or_none (scrub_proxy_owned_meta request)) key
  pub params_rest :
      (key : Str)
      → str_eq (codes "_meta") key ≡ false
      → get params key
        ≡ get_member
            (members_or_none (
              value_or_null
                (get_member (members_or_none (scrub_proxy_owned_meta request)) (codes "params"))))
            key
  pub meta_rest :
      (key : Str)
      → str_eq verified_meta_key key ≡ false
      → get meta key
        ≡ get_member
            (members_or_none (
              value_or_null (
                get_member
                  (members_or_none (
                    value_or_null (
                      get_member
                        (members_or_none (scrub_proxy_owned_meta request))
                        (codes "params"))))
                  (codes "_meta"))))
            key
  pub clean : CleanValue false (scrub_proxy_owned_meta request)

module _ (l : Libraries) (server_signer : Str) (raw : List ℕ) (verified : VerifiedRequest) (now : ℤ)
    (bytes : List ℕ) where
  injected :
      (request context message : Value)
      → l.externals.from_slice raw ≡ some request
      → build_verified_context l.binding_to_value server_signer verified now ≡ ok context
      → inject_context context (scrub_proxy_owned_meta request) ≡ some message
      → l.to_vec message ≡ some bytes
      → Injected l server_signer raw verified now bytes
  unfolding inject_context get str_eq codes
  injected request context message parsed built injected_as serialized =
      let scrubbed = scrub_proxy_owned_meta request in
      let top = members_or_none scrubbed in
      let (params, params_as, message_is) =
        index_mut-exact (codes "params") (index_mut (codes "_meta") (with_context context)) scrubbed
          message injected_as in
      let below = members_or_none (value_or_null (get_member top (codes "params"))) in
      let (meta, meta_as, params_is) =
        index_mut-exact (codes "_meta") (with_context context)
          (value_or_null (get_member top (codes "params"))) params params_as in
      let clean = (scrub-CleanValue request).0 in
      let clean_params =
        CleanMembers-get false top (codes "params") (CleanValue-members false scrubbed clean) in
      let clean_meta =
        CleanMembers-get _ below (codes "_meta") (CleanValue-members _ _ clean_params) in
      record {
        request = request;
        parsed = parsed;
        context = context;
        context_of = built;
        message = message;
        serialized = serialized;
        params = params;
        params_of = rw message_is (get_member-insert_member (codes "params") params top);
        meta = meta;
        meta_of = rw params_is (get_member-insert_member (codes "_meta") meta below);
        owned = with_context-Owned context _ meta clean_meta meta_as;
        rest = λ key d.
            rw message_is (get_member-insert_member_other (codes "params") key params top d);
        params_rest =
            λ key d. rw params_is (get_member-insert_member_other (codes "_meta") key meta below d);
        meta_rest = with_context-rest context _ meta meta_as;
        clean = clean;
      }

  -- The message that is built for the inner server is the scrubbed request with the verified
  -- context at its place under `_meta`: no other name that the proxy owns is there, every other
  -- member of the message, of its parameters and of their `_meta` is as the scrubbed request has
  -- it, where what is absent or null counts as an empty object and so does a `_meta` that is no
  -- object, and the scrubbed request has no owned name directly under any `_meta`.
  pub build_forwarded_request-Injected :
      build_forwarded_request l server_signer raw verified now ≡ ok bytes
      → Injected l server_signer raw verified now bytes
  unfolding build_forwarded_request
  build_forwarded_request-Injected h =
      let (request, parsed, h1) = >>=-eq-ok (or_refuse (l.externals.from_slice raw) _) _ h in
      let (context, built, h2) =
        >>=-eq-ok
          (or_refused (build_verified_context l.binding_to_value server_signer verified now)) _
          h1 in
      let (message, injected_as, h3) =
        >>=-eq-ok (or_panic (inject_context context (scrub_proxy_owned_meta request))) _ h2 in
      injected request context message (or_refuse-ok _ _ parsed) (or_refused-ok _ built)
        (or_panic-ok _ injected_as) (or_refuse-ok _ _ h3)
