-- ===== src/Ui/Pool.antt =====
-- The live web views of src/visiontak_client/ui/kiosk_window.py: the fields `_views`, `_view_order`
-- and `_loading_ids` with the children of the stack, and the methods that create, touch and release.
-- The calls on the web views themselves (WebKit) are kept as a log.
pub mod Shape
pub mod Eviction
pub mod Recency
use visiontak_client.Prelude.{
  ℕ, zero, suc, ◌+◌, max, Bool, true, false, not, ◌&&◌, Option, none, some, List, [], ◌∷◌, ◌++◌,
  Text, text_eq, ℤ, pos, negsuc, leb, if◌then◌else◌, length, contains, remove, insert, discard,
  keys, lookup, assign, without, has_key,
}
use visiontak_client.Models.{Dashboard}

-- A child of the stack.
pub data Child : Type 0 where
  placeholder setup_screen : Child
  web_view : Text → Child

pub data WebCall : Type 0 where
  load : Text → Text → WebCall
  stop : Text → WebCall
  reload : Text → WebCall

-- A web view, by the address it was created for.
pub record View : Type 0 where
  pub uri : Text

pub record Pool : Type 0 where
  pub views : List (Text × View)
  pub view_order : List Text
  pub loading_ids : List Text
  pub children : List Text
  pub visible : Option Child
  pub calls : List WebCall

abbrev pub init : Pool
init = record {
  views = [];
  view_order = [];
  loading_ids = [];
  children = [];
  visible = some placeholder;
  calls = [];
}

-- Gtk.Stack.remove: a removed child is shown no longer.
unfoldable pub hide : Text → Option Child → Option Child
hide id (some (web_view k)) = if text_eq k id then none else some (web_view k)
hide id v = v

unfoldable pub set_visible_child : Child → Pool → Pool
set_visible_child c p = record p { visible = some c }

-- _release_view
unfoldable pub release_view : Text → Pool → Pool
unfolding hide
release_view id p = elim (lookup id p.views) [
  | none ↦ p
  | some v ↦ record {
    views = without id p.views;
    view_order = if contains id p.view_order then remove id p.view_order else p.view_order;
    loading_ids = discard id p.loading_ids;
    children = remove id p.children;
    visible = hide id p.visible;
    calls = p.calls ++ stop id ∷ [];
  }
]

-- The keys that are not among the live ids, and the loop of _drop_stale_views over them.
unfoldable pub stale_keys : List Text → List Text → List Text
stale_keys live [] = []
stale_keys live (k ∷ ks) =
    let rest = stale_keys live ks in if contains k live then rest else k ∷ rest

unfoldable pub release_all : List Text → Pool → Pool
release_all [] p = p
release_all (k ∷ ks) p = release_all ks (release_view k p)

unfoldable pub drop_stale_views : List Text → Pool → Pool
unfolding stale_keys release_all
drop_stale_views live p = release_all (stale_keys live (keys p.views)) p

-- _touch
unfoldable pub touch : Text → Pool → Pool
touch id p = record p {
  view_order =
      (if contains id p.view_order then remove id p.view_order else p.view_order) ++ id ∷ [];
}

-- `i != current_id`
unfoldable pub is_current : Option Text → Text → Bool
is_current none i = false
is_current (some c) i = text_eq i c

-- The `next(...)` of _evict_surplus.
unfoldable pub find_victim : Option Text → List Text → List (Text × View) → Option Text
unfolding is_current
find_victim cur [] views = none
find_victim cur (i ∷ order) views =
    if not (is_current cur i) && has_key i views then some i else find_victim cur order views

-- The `while` of _evict_surplus; each round releases a view, so the number of views is fuel enough.
unfoldable pub evict : ℕ → ℕ → Option Text → Pool → Pool
evict zero limit cur p = p
evict (suc fuel) limit cur p =
    let rest = λ (v : Text). evict fuel limit cur (release_view v p) in
    if leb (length p.views) limit
    then p
    else elim (find_victim cur p.view_order p.views) [ none ↦ p | some v ↦ rest v ]

-- max(1, max_live_views)
unfoldable pub live_limit : ℤ → ℕ
live_limit (pos n) = max 1 n
live_limit (negsuc n) = 1

unfoldable pub evict_surplus : ℤ → Option Text → Pool → Pool
unfolding evict live_limit
evict_surplus max_live cur p = evict (length p.views) (live_limit max_live) cur p

-- The lines of _view_for that build the view, start the load and register it.
unfoldable pub add_view : Dashboard → Pool → Pool
add_view d p = record p {
  views = assign d.id (record { uri = d.url }) p.views;
  loading_ids = insert d.id p.loading_ids;
  children = p.children ++ d.id ∷ [];
  calls = p.calls ++ load d.id d.url ∷ [];
}

unfoldable pub view_for : ℤ → Option Text → Dashboard → Pool → Pool
unfolding touch add_view evict_surplus
view_for max_live cur d p = elim (lookup d.id p.views) [
  | some v ↦ touch d.id p
  | none ↦ evict_surplus max_live cur (touch d.id (add_view d p))
]
