-- ===== src/Protocol/Json.antt =====
-- JSON values. Numbers are the integers: the messages modelled carry no fraction but the limits of
-- time, which are compared nowhere here.
use codex_waiting_plgin.Prelude.{
  String, ℤ, Bool, true, false, Option, none, some, ◌==◌, if◌then◌else◌,
}

mutual
  pub data Json : Type 0 where
    null : Json
    boolean : Bool → Json
    number : ℤ → Json
    text : String → Json
    array : Items → Json
    object : Members → Json

  pub data Items : Type 0 where
    nil : Items
    cons : Json → Items → Items

  pub data Members : Type 0 where
    end : Members
    member : String → Json → Members → Members

-- A property of an object; `none` where it is not there.
abbrev pub get_member : String → Members → Option Json
get_member k end = none
get_member k (member j v m) = if j == k then some v else get_member k m

abbrev present : Option Json → Option Json
present (some null) = none
present o = o

-- `value.get(key)` where it is not `None`: a property that is not there and one that is null are alike.
abbrev pub field : String → Json → Option Json
field k (object m) = present (get_member k m)
field k v = none

abbrev pub all_items : (Json → Bool) → Items → Bool
all_items p nil = true
all_items p (cons v r) = if p v then all_items p r else false

abbrev pub all_members : (Json → Bool) → Members → Bool
all_members p end = true
all_members p (member k v m) = if p v then all_members p m else false
