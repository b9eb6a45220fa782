-- ===== src/Hub.antt =====
-- The hub of log and event subscribers (internal/app/hub.go). A channel of capacity 64 is a number
-- with its buffer in the hub's table; the mutex makes each method one step.
pub mod Delivery
use ctf_agent.Base.{
  ℕ, suc, Bool, true, false, Option, none, some, List, [], ◌∷◌, ◌++◌, length, ltb, ◌==◌,
  if◌then◌else◌,
}
use ctf_agent.Map.{Map, lookup, insert, delete}
use ctf_agent.Text.{Text}

pub record Chan : Type 0 where
  pub buffer : List Text
  pub closed : Bool

pub record Hub : Type 0 where
  pub subs : Map (List ℕ)
  pub event_subs : List ℕ
  pub chans : ℕ → Chan
  -- the number of the next channel that is made
  pub next : ℕ

abbrev pub capacity : ℕ
capacity = 64

abbrev pub new_hub : Hub
new_hub = record {
  subs = [];
  event_subs = [];
  chans = λ _. record { buffer = []; closed = false };
  next = 0;
}

abbrev pub set_chan : ℕ → Chan → (ℕ → Chan) → ℕ → Chan
set_chan ch c chans i = if i == ch then c else chans i

abbrev pub or_no_subs : Option (List ℕ) → List ℕ
or_no_subs none = []
or_no_subs (some chs) = chs

unfoldable pub subscribers : Text → Hub → List ℕ
subscribers id h = or_no_subs (lookup id h.subs)

unfoldable pub member : ℕ → List ℕ → Bool
member ch [] = false
member ch (c ∷ cs) = if c == ch then true else member ch cs

unfoldable pub remove : ℕ → List ℕ → List ℕ
remove ch [] = []
remove ch (c ∷ cs) = if c == ch then remove ch cs else c ∷ remove ch cs

abbrev make_chan : Hub → Hub
make_chan h = record h {
  chans = set_chan h.next (record { buffer = []; closed = false }) h.chans;
  next = suc h.next;
}

-- Subscribe: the new channel's number is `h.next`.
unfoldable pub subscribe : Text → Hub → Hub
unfolding subscribers
subscribe id h = record (make_chan h) { subs = insert id (h.next ∷ subscribers id h) h.subs }

-- close(ch) panics on a closed channel: `none`.
unfoldable pub close_chan : ℕ → Hub → Option Hub
close_chan ch h =
    if (h.chans ch).closed
    then none
    else some (record h {
      chans = set_chan ch (record { buffer = (h.chans ch).buffer; closed = true }) h.chans;
    })

abbrev drop_empty : Text → List ℕ → Map (List ℕ) → Map (List ℕ)
drop_empty id [] subs = delete id subs
drop_empty id (c ∷ cs) subs = insert id (c ∷ cs) subs

unfoldable pub unsubscribe_from : Text → ℕ → Option (List ℕ) → Hub → Option Hub
unfolding close_chan remove
unsubscribe_from id ch none h = some h
unsubscribe_from id ch (some chs) h =
    close_chan ch (record h { subs = drop_empty id (remove ch chs) h.subs })

-- Unsubscribe
unfoldable pub unsubscribe : Text → ℕ → Hub → Option Hub
unfolding unsubscribe_from
unsubscribe id ch h = unsubscribe_from id ch (lookup id h.subs) h

-- `select { case ch <- text: default: }`: a full buffer drops the text, and a send on a closed
-- channel panics: `none`.
unfoldable pub offer : Text → Chan → Option Chan
offer text c =
    if c.closed
    then none
    else if ltb (length c.buffer) capacity
    then some (record c { buffer = c.buffer ++ text ∷ [] })
    else some c

unfoldable pub offer_all : Text → List ℕ → (ℕ → Chan) → Option (ℕ → Chan)
unfolding offer
offer_all text [] chans = some chans
offer_all text (ch ∷ chs) chans = elim (offer text (chans ch)) [
  | none ↦ none
  | some c ↦ offer_all text chs (set_chan ch c chans)
]

abbrev pub with_chans : Hub → Option (ℕ → Chan) → Option Hub
with_chans h none = none
with_chans h (some chans) = some (record h { chans = chans })

-- Publish
unfoldable pub publish : Text → Text → Hub → Option Hub
unfolding offer_all subscribers
publish id text h = with_chans h (offer_all text (subscribers id h) h.chans)

unfoldable pub subscribe_events : Hub → Hub
subscribe_events h = record (make_chan h) { event_subs = h.next ∷ h.event_subs }

unfoldable pub unsubscribe_events : ℕ → Hub → Option Hub
unfolding close_chan remove member
unsubscribe_events ch h =
    if member ch h.event_subs
    then close_chan ch (record h { event_subs = remove ch h.event_subs })
    else some h

-- PublishEvent
unfoldable pub publish_event : Text → Hub → Option Hub
unfolding offer_all
publish_event text h = with_chans h (offer_all text h.event_subs h.chans)

abbrev pub or_same : Hub → Option Hub → Hub
or_same h none = h
or_same h (some h') = h'
