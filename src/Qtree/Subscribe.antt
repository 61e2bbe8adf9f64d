-- ===== src/Qtree/Subscribe.antt =====
-- The subscriptions of a query tree node (qtree_sub.go, and their part of qtree.go).
use rgraphql.Prelude.{
  zero, suc, ◌<◌, ◌⊎◌, inl, inr, get_elem?, Bool-cases, ℕ, ◌+◌, ◌≤◌, Option, none, some, List, [],
  ◌∷◌, ◌++◌, ◌≡◌, refl, arith, ltb, nat_eq, if◌then◌else◌, Map, length, lookup, insert, delete,
  lookup-delete, nat_beq_iff, length-append,
}
use rgraphql.Varstore.{u32}
use rgraphql.Qtree.{QtNodeUpdate, QueryTreeNode}

-- The buffer of a channel that `Changes` makes.
abbrev pub chan_cap : ℕ
chan_cap = 50

abbrev pub Channel : Type 0
Channel = List QtNodeUpdate

-- A send that is dropped where the buffer is full.
unfoldable pub send_update : QtNodeUpdate → Channel → Channel
send_update upd ch = if ltb (length ch) chan_cap then ch ++ upd ∷ [] else ch

-- `qtNodeSubscription.nextChange`
unfoldable pub next_change : QtNodeUpdate → List Channel → List Channel
next_change upd [] = []
next_change upd (ch ∷ chs) = send_update upd ch ∷ next_change upd chs

-- The loop of `nextUpdate` over the subscribers.
unfoldable pub update_all : QtNodeUpdate → Map ℕ (List Channel) → Map ℕ (List Channel)
update_all upd [] = []
update_all upd ((id, chs) ∷ subs) = (id, next_change upd chs) ∷ update_all upd subs

-- `QueryTreeNode.nextUpdate`
unfoldable pub next_update : QtNodeUpdate → QueryTreeNode → QueryTreeNode
next_update upd n = record n { subscribers = update_all upd n.subscribers }

-- `SubscribeChanges`: the node, and the id of the subscription.
unfoldable pub subscribe_changes : QueryTreeNode → QueryTreeNode × ℕ
subscribe_changes n = (
  record n { sub_ctr = u32 (n.sub_ctr + 1); subscribers = insert n.sub_ctr [] n.subscribers },
  n.sub_ctr,
)

abbrev add_channel : ℕ → QueryTreeNode → Option (List Channel) → QueryTreeNode
add_channel id n none = n
add_channel id n (some chs) = record n { subscribers = insert id (chs ++ [] ∷ []) n.subscribers }

-- `qtNodeSubscription.Changes`, on a subscription of the node.
unfoldable pub changes : ℕ → QueryTreeNode → QueryTreeNode
changes id n = add_channel id n (lookup id n.subscribers)

-- `removeSubscription`, which `Unsubscribe` calls.
unfoldable pub remove_subscription : ℕ → QueryTreeNode → QueryTreeNode
remove_subscription id n = record n { subscribers = delete id n.subscribers }

abbrev pub through : {A B : Type 0} → (A → B) → Option A → Option B
through f none = none
through f (some a) = some (f a)

lookup-update_all :
    (upd : QtNodeUpdate) (id : ℕ) (subs : Map ℕ (List Channel))
    → lookup id (update_all upd subs) ≡ through (next_change upd) (lookup id subs)
unfolding lookup update_all
lookup-update_all upd id [] = refl
lookup-update_all upd id ((j, chs) ∷ subs) = ground (arith, lookup-update_all upd id subs)

-- No channel of a list holds more than its buffer.
abbrev pub Fits : List Channel → Type 0
Fits [] = Unit
Fits (ch ∷ chs) = (length ch ≤ chan_cap) × Fits chs

next_change-Fits : (upd : QtNodeUpdate) (chs : List Channel) → Fits chs → Fits (next_change upd chs)
unfolding next_change send_update
next_change-Fits upd [] h = tt
next_change-Fits upd (ch ∷ chs) h =
    (ground (arith, length-append ch (upd ∷ [])), next_change-Fits upd chs h.1)

-- What one channel holds after an update.
abbrev pub Delivered : QtNodeUpdate → Channel → Option Channel → Type 0
Delivered upd ch after =
    ((length ch < chan_cap) × (after ≡ some (ch ++ upd ∷ [])))
    ⊎ ((chan_cap ≤ length ch) × (after ≡ some ch))

get_elem?-next_change :
    (upd : QtNodeUpdate) (chs : List Channel) (i : ℕ) (ch : Channel)
    → get_elem? chs i ≡ some ch
    → Delivered upd ch (get_elem? (next_change upd chs) i)
unfolding next_change send_update
get_elem?-next_change upd [] i ch h = absurd (ground arith)
get_elem?-next_change upd (d ∷ chs) zero ch h = elim (Bool-cases (ltb (length ch) chan_cap)) [
  | inl e ↦ inl (ground (arith, e), ground (arith, e, h))
  | inr e ↦ inr (ground (arith, e), ground (arith, e, h))
]
get_elem?-next_change upd (d ∷ chs) (suc i) ch h = get_elem?-next_change upd chs i ch h

length-next_change :
    (upd : QtNodeUpdate) (chs : List Channel) → length (next_change upd chs) ≡ length chs
unfolding next_change
length-next_change upd [] = refl
length-next_change upd (ch ∷ chs) = ground (arith, length-next_change upd chs)

-- Where the subscription `id` has channels, within their buffers: after an update it has as many, and
-- the channel at `i` ends with the update if it had room for it, and else is as it was. No channel
-- of it is past its buffer, and a subscription that is removed before gets nothing.
pub lookup-next_update :
    (upd : QtNodeUpdate) (id gone i : ℕ) (n : QueryTreeNode) (chs : List Channel) (ch : Channel)
    → lookup id n.subscribers ≡ some chs
    → Fits chs
    → get_elem? chs i ≡ some ch
    → (after : List Channel) × (lookup id (next_update upd n).subscribers ≡ some after)
      × (length after ≡ length chs)
      × Delivered upd ch (get_elem? after i)
      × Fits after
      × (lookup gone (next_update upd (remove_subscription gone n)).subscribers ≡ none)
unfolding next_update remove_subscription
lookup-next_update upd id gone i n chs ch at fits here = (
  next_change upd chs,
  ground (arith, lookup-update_all upd id n.subscribers),
  length-next_change upd chs,
  get_elem?-next_change upd chs i ch here,
  next_change-Fits upd chs fits,
  ground (
    arith,
    lookup-update_all upd gone (delete gone n.subscribers),
    lookup-delete gone gone n.subscribers,
    nat_beq_iff gone gone,
  ),
)
