-- ===== src/ShardGroup/Handover.antt =====
-- internal/shardgroup.go, the goroutine of Open, and internal/manager.go, AllReady.
use sandwich_daemon.Base.{
  Bool, true, false, ◌&&◌, ◌||◌, not, none, List, [], ◌∷◌, ℤ, ℤ_discrete, if◌then◌else◌, ◌≡◌, ◌≢◌,
  ◌∙◌, ◌⊎◌, refl, inl, inr, if_pos, if_neg,
}
use sandwich_daemon.Connection.{
  Connection, shard_closed, StatusCode, close, start_closing, close_ws, close_producer, set_status,
  waits_for_producer, end_closing, normal_closure,
}
use sandwich_daemon.ShardGroup.{
  ShardGroup, group_closed, set_group_status, close_shards, close_group, Manager, are_ready,
  all_ready, each_group, is_stuck, finish_group, close_each, is_own, store_ready, open_floodgate,
  any_stuck, on_all_ready,
}

-- A shard after Close.
pub record IsShut (s : Connection) : Type 0 where
  pub shut : s.status ≡ shard_closed
  pub disconnected : s.ws_conn ≡ none
  pub cancelled : s.cancelled ≡ true

abbrev pub AreShut : List (ℤ × Connection) → Type 0
AreShut [] = Unit {0}
AreShut ((id, s) ∷ rest) = IsShut s × AreShut rest

-- A group after Close.
pub record IsClosed (g : ShardGroup) : Type 0 where
  pub closed : g.status ≡ group_closed
  pub shut : AreShut g.shards
  pub no_guilds : g.guilds ≡ []

-- A shard whose Close returns: it has no producer, or one whose CloseShard returns.
abbrev pub Returns : Connection → Type 0
Returns s = (s.has_producer ≡ false) ⊎ (s.producer_blocks ≡ false)

abbrev pub AllReturn : List (ℤ × Connection) → Type 0
AllReturn [] = Unit {0}
AllReturn ((id, s) ∷ rest) = Returns s × AllReturn rest

-- The shards of every group but the group's own.
abbrev pub OthersReturn : ℤ → List (ℤ × ShardGroup) → Type 0
OthersReturn own [] = Unit {0}
OthersReturn own ((id, g) ∷ rest) = ((id ≡ own) ⊎ AllReturn g.shards) × OthersReturn own rest

waits_for_producer-Returns : (s : Connection) → Returns s → waits_for_producer false s ≡ false
unfolding waits_for_producer
waits_for_producer-Returns s (inl e) = rw e refl
waits_for_producer-Returns s (inr e) = rw e (and_false s.has_producer)
  where
    and_false : (b : Bool) → ((b && false) && not false) ≡ false
    and_false true = refl
    and_false false = refl

is_stuck-AllReturn : (shards : List (ℤ × Connection)) → AllReturn shards → is_stuck shards ≡ false
unfolding is_stuck
is_stuck-AllReturn [] h = refl
is_stuck-AllReturn ((id, s) ∷ rest) (h, hs) =
    rw (waits_for_producer-Returns s h) (is_stuck-AllReturn rest hs)

close-IsShut :
    (code : StatusCode) (s : Connection)
    → waits_for_producer false s ≡ false
    → IsShut (close code false s)
unfolding close end_closing set_status close_producer close_ws start_closing
close-IsShut code s h = rw h (by_producer s.has_producer)
  where
    by_producer :
        (b : Bool)
        → IsShut (
            end_closing false (
              close_producer false (record (close_ws code (start_closing s)) { has_producer = b })))
    by_producer true = record { shut = refl; disconnected = refl; cancelled = refl }
    by_producer false = record { shut = refl; disconnected = refl; cancelled = refl }

close_shards-AreShut :
    (shards : List (ℤ × Connection)) → AllReturn shards → AreShut (close_shards shards)
unfolding close_shards
close_shards-AreShut [] h = tt
close_shards-AreShut ((id, s) ∷ rest) (h, hs) =
    (close-IsShut normal_closure s (waits_for_producer-Returns s h), close_shards-AreShut rest hs)

-- What the goroutine leaves of a group.
abbrev pub HandedOver : ℤ → ℤ → ShardGroup → Type 0
HandedOver own id g =
    ((id ≡ own) × (g.floodgate ≡ true) × (g.all_shards_ready ≡ true)) ⊎ ((id ≢ own) × IsClosed g)

-- All groups of a manager.
abbrev pub AreHandedOver : ℤ → List (ℤ × ShardGroup) → Type 0
AreHandedOver own [] = Unit {0}
AreHandedOver own ((id, g) ∷ rest) = HandedOver own id g × AreHandedOver own rest

is_own-own : (own id : ℤ) → id ≡ own → is_own own id ≡ true
unfolding is_own
is_own-own own id e = if_pos (ℤ_discrete id own) e true false

is_own-other : (own id : ℤ) → id ≢ own → is_own own id ≡ false
unfolding is_own
is_own-other own id h = if_neg (ℤ_discrete id own) h true false

-- What on_all_ready makes of the groups, when it comes to the end.
abbrev handed : ℤ → List (ℤ × ShardGroup) → List (ℤ × ShardGroup)
handed own gs =
    each_group (open_floodgate own true) (close_each (is_own own) (each_group (store_ready own) gs))

close_each-AreHandedOver :
    (own : ℤ) (gs : List (ℤ × ShardGroup)) → OthersReturn own gs → AreHandedOver own (handed own gs)
unfolding each_group store_ready close_each open_floodgate
close_each-AreHandedOver own [] h = tt
close_each-AreHandedOver own ((id, g) ∷ gs) (h, hs) =
    let later : AreHandedOver own (handed own gs) = close_each-AreHandedOver own gs hs in
    elim (ℤ_discrete id own) [
      | yes e ↦ rw (is_own-own own id e) (inl (e, rw (is_own-own own id e) refl, refl), later)
      | no k ↦ elim h [
        | inl e ↦ absurd (k e)
        | inr r ↦ rw (is_own-other own id k) (
            rw (is_stuck-AllReturn g.shards r) (
              inr (
                k,
                record { closed = refl; shut = close_shards-AreShut g.shards r; no_guilds = refl },
              ),
              later,
            ))
      ]
    ]

any_stuck-OthersReturn :
    (own : ℤ) (gs : List (ℤ × ShardGroup)) → OthersReturn own gs → any_stuck own gs ≡ false
unfolding any_stuck
any_stuck-OthersReturn own [] h = refl
any_stuck-OthersReturn own ((id, g) ∷ gs) (inl e, hs) =
    rw (is_own-own own id e) (any_stuck-OthersReturn own gs hs)
any_stuck-OthersReturn own ((id, g) ∷ gs) (inr r, hs) =
    rw (is_stuck-AllReturn g.shards r) (either (is_own own id) (any_stuck-OthersReturn own gs hs))
  where
    either :
        (b : Bool)
        → any_stuck own gs ≡ false
        → ((if b then false else false) || any_stuck own gs) ≡ false
    either true e = e
    either false e = e

-- When all shards of a group were ready and no shard of another group has a producer whose CloseShard does not return, the group's floodgate is open and it counts as ready, and every other group of the manager is Closed, has no guilds, and all its shards are Closed, without a websocket and with their contexts cancelled.
pub on_all_ready-AreHandedOver :
    (own : ℤ) (m : Manager)
    → OthersReturn own m.shard_groups
    → AreHandedOver own (on_all_ready own m).shard_groups
unfolding on_all_ready
on_all_ready-AreHandedOver own m h =
    rw (any_stuck-OthersReturn own m.shard_groups h) (close_each-AreHandedOver own m.shard_groups h)

-- A group with another id whose shards were never all ready.
abbrev pub HasUnready : ℤ → List (ℤ × ShardGroup) → Type 0
HasUnready own [] = ⊥
HasUnready own ((id, g) ∷ rest) = ((id ≢ own) × (g.all_shards_ready ≡ false)) ⊎ HasUnready own rest

and-false : (a b : Bool) → b ≡ false → (a && b) ≡ false
and-false true b e = e
and-false false b e = refl

each_group-ready :
    (f : ℤ → ShardGroup → ShardGroup)
    → ((id : ℤ) (g : ShardGroup) → (f id g).all_shards_ready ≡ g.all_shards_ready)
    → (gs : List (ℤ × ShardGroup)) → are_ready (each_group f gs) ≡ are_ready gs
unfolding are_ready each_group
each_group-ready f h [] = refl
each_group-ready f h ((id, g) ∷ gs) = rw (h id g) (rw (each_group-ready f h gs) refl)

finish_group-ready :
    (b : Bool) (t : ShardGroup) → (finish_group b t).all_shards_ready ≡ t.all_shards_ready
unfolding finish_group set_group_status
finish_group-ready true t = refl
finish_group-ready false t = refl

close_group-ready : (g : ShardGroup) → (close_group g).all_shards_ready ≡ g.all_shards_ready
unfolding close_group set_group_status
close_group-ready g = finish_group-ready (is_stuck g.shards) _

close_each-ready :
    (skip : ℤ → Bool) (gs : List (ℤ × ShardGroup)) → are_ready (close_each skip gs) ≡ are_ready gs
unfolding are_ready close_each
close_each-ready skip [] = refl
close_each-ready skip ((id, g) ∷ gs) =
    by_group (close_each-ready skip gs) (skip id) (is_stuck g.shards)
  where
    by_group :
        are_ready (close_each skip gs) ≡ are_ready gs
        → (b c : Bool)
        → are_ready (
            if b
            then (id, g) ∷ close_each skip gs
            else (id, close_group g) ∷ (if c then gs else close_each skip gs))
          ≡ (g.all_shards_ready && are_ready gs)
    by_group e true c = rw e refl
    by_group e false true = rw (close_group-ready g) refl
    by_group e false false = rw (close_group-ready g) (rw e refl)

store_ready-unready :
    (own : ℤ) (gs : List (ℤ × ShardGroup))
    → HasUnready own gs
    → are_ready (each_group (store_ready own) gs) ≡ false
unfolding are_ready each_group store_ready
store_ready-unready own [] h = absurd h
store_ready-unready own ((id, g) ∷ gs) (inl (h, e)) = rw (is_own-other own id h) (rw e refl)
store_ready-unready own ((id, g) ∷ gs) (inr h) =
    and-false (store_ready own id g).all_shards_ready _ (store_ready-unready own gs h)

are_ready-unready :
    (own : ℤ) (b : Bool) (gs : List (ℤ × ShardGroup))
    → HasUnready own gs
    → are_ready (
        each_group
          (open_floodgate own b)
          (close_each (is_own own) (each_group (store_ready own) gs)))
      ≡ false
unfolding open_floodgate
are_ready-unready own b gs h =
    each_group-ready (open_floodgate own b) (λ id g. refl) _
    ∙ close_each-ready (is_own own) (each_group (store_ready own) gs)
    ∙ store_ready-unready own gs h

-- When a manager has another group whose shards were never all ready, AllReady is false after a group took over from it, too: the closed group still counts.
pub all_ready-unready :
    (own : ℤ) (m : Manager) → HasUnready own m.shard_groups → all_ready (on_all_ready own m) ≡ false
unfolding all_ready on_all_ready
all_ready-unready own m h = rw (are_ready-unready own _ m.shard_groups h) (either _)
  where
    either : (b : Bool) → (if b then false else false) ≡ false
    either true = refl
    either false = refl
