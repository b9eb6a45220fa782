-- ===== src/Hub/Delivery.antt =====
-- Who gets a published text (internal/app/hub.go).
use ctf_agent.Base.{
  ℕ, ◌≡◌, refl, sym, ap, ◌∙◌, subst, inl, inr, true, false, some, List, [], ◌∷◌, ◌++◌, length, ltb,
  ◌==◌, if◌then◌else◌, arith, Bool-cases,
}
use ctf_agent.Hub.{
  Chan, Hub, capacity, set_chan, subscribers, member, offer, offer_all, with_chans, publish,
}
use ctf_agent.Text.{Text}

-- No channel twice.
abbrev pub Distinct : List ℕ → Type 0
Distinct [] = Unit
Distinct (c ∷ cs) = (member c cs ≡ false) × Distinct cs

-- None of the channels is closed.
abbrev pub Open : (ℕ → Chan) → List ℕ → Type 0
Open chans [] = Unit
Open chans (c ∷ cs) = ((chans c).closed ≡ false) × Open chans cs

-- What a channel holds once the text has come: it stands at the end if there was room.
abbrev pub received : Text → Chan → Chan
received text c =
    if ltb (length c.buffer) capacity then record c { buffer = c.buffer ++ text ∷ [] } else c

offer_open : (text : Text) (c : Chan) → c.closed ≡ false → offer text c ≡ some (received text c)
unfolding offer
offer_open text c h = ground arith

-- Each listed channel once has the text, and no other.
abbrev Delivered : Text → List ℕ → (ℕ → Chan) → (ℕ → Chan) → Type 0
Delivered text chs chans after =
    (ch : ℕ) → after ch ≡ (if member ch chs then received text (chans ch) else chans ch)

other_Open :
    (c : ℕ) (new : Chan) (chans : ℕ → Chan) (cs : List ℕ)
    → member c cs ≡ false
    → Open chans cs
    → Open (set_chan c new chans) cs
unfolding member
other_Open c new chans [] m o = tt
other_Open c new chans (d ∷ cs) m o = (ground arith, other_Open c new chans cs (ground arith) o.1)

Delivered-front :
    (text : Text) (c : ℕ) (cs : List ℕ) (chans after : ℕ → Chan)
    → member c cs ≡ false
    → Delivered text cs (set_chan c (received text (chans c)) chans) after
    → Delivered text (c ∷ cs) chans after
unfolding member
Delivered-front text c cs chans after m k ch = elim (Bool-cases (c == ch)) [
  | inl hit ↦
      let same : c ≡ ch = ground arith in
      let missing = subst (λ x. member x cs ≡ false) same m in
      k ch ∙ rw (missing, hit, member) (ground arith)
  | inr miss ↦
      let back : ch == c ≡ false = ground arith in
      let same : set_chan c (received text (chans c)) chans ch ≡ chans ch = rw back refl in
      k ch
      ∙ ap (λ x. if member ch cs then received text x else x) same
      ∙ ap (λ b. if (if b then true else member ch cs) then received text (chans ch) else chans ch)
          (sym miss)
]

offer_all-Delivered :
    (text : Text) (chs : List ℕ) (chans : ℕ → Chan)
    → Distinct chs
    → Open chans chs
    → (after : ℕ → Chan) × (offer_all text chs chans ≡ some after) × Delivered text chs chans after
unfolding offer_all member
offer_all-Delivered text [] chans d o = (chans, refl, λ ch. refl)
offer_all-Delivered text (c ∷ cs) chans d o =
    let new = received text (chans c) in
    let (after, same, k) =
      offer_all-Delivered text cs (set_chan c new chans) d.1 (other_Open c new chans cs d.0 o.1) in
    (
      after,
      rw (offer_open text (chans c) o.0, offer_all) same,
      Delivered-front text c cs chans after d.0 k,
    )

-- Where no channel is subscribed twice for the task and none of its subscribers is closed, Publish
-- does not panic: the text goes once to the end of the buffer of every subscriber of the task that
-- has room, a full subscriber misses it, and every other channel is as it was.
pub publish_delivers :
    (id text : Text) (h : Hub)
    → Distinct (subscribers id h)
    → Open h.chans (subscribers id h)
    → (after : Hub) × (publish id text h ≡ some after)
      × ((ch : ℕ)
          → after.chans ch
            ≡ (if member ch (subscribers id h) then received text (h.chans ch) else h.chans ch))
unfolding publish
publish_delivers id text h d o =
    let (chans, same, k) = offer_all-Delivered text (subscribers id h) h.chans d o in
    (record h { chans = chans }, ap (with_chans h) same, k)
