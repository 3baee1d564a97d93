-- ===== src/Proxy/Scrub.antt =====
-- mcps-proxy/src/proxy.rs, `scrub_proxy_owned_meta`: the removal of the keys that the proxy alone
-- writes from every `_meta` of a message.
pub mod Clean
use mcps.Prelude.{Str, codes, str_eq, Bool, true, false, ◌&&◌, ◌||◌, List, [], ◌∷◌, if◌then◌else◌}
use mcps.Core.Ids.{request_meta_key, response_meta_key, verified_meta_key}
use mcps.Core.Json.{
  Value, Items, Members, null, bool, number, string, array, object, no_items, item, no_members,
  member,
}
use mcps.Core.Constraints.{contains}
use mcps.Policy.Block.{authorization_meta_key}

abbrev pub proxy_owned_meta_keys : List Str
proxy_owned_meta_keys =
    request_meta_key ∷ response_meta_key ∷ verified_meta_key ∷ authorization_meta_key ∷ []

-- One walk: the members of an object that stands under `_meta` lose the owned keys, and every member
-- that is left is walked.
unfoldable mutual
  pub scrub_value : Bool → Value → Value
  scrub_value under_meta (object ms) = object (scrub_members under_meta ms)
  scrub_value under_meta (array vs) = array (scrub_items vs)
  scrub_value under_meta null = null
  scrub_value under_meta (bool b) = bool b
  scrub_value under_meta (number n) = number n
  scrub_value under_meta (string s) = string s

  pub scrub_items : Items → Items
  scrub_items no_items = no_items
  scrub_items (item v vs) = item (scrub_value false v) (scrub_items vs)

  pub scrub_members : Bool → Members → Members
  scrub_members under_meta no_members = no_members
  scrub_members under_meta (member k v ms) =
      let rest = scrub_members under_meta ms in
      let kept = member k (scrub_value (str_eq k (codes "_meta")) v) rest in
      if under_meta && contains proxy_owned_meta_keys k then rest else kept

unfoldable pub scrub_proxy_owned_meta : Value → Value
scrub_proxy_owned_meta value = scrub_value false value
