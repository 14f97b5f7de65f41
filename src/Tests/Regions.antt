-- ===== src/Tests/Regions.antt =====
-- A service with one session, number 5, and a region map with room for one dataspace, at 4096.
use ada_interfaces.Tests.Factories.{ready_factory}
use ada_interfaces.Base.{
  ℕ, ◌+◌, ◌≡◌, ◌≢◌, ◌⊎◌, refl, Bool, true, false, Option, none, some, [], ◌∷◌, pos, arith, put_at,
  put_at-same, put_at-other, subst,
}
use ada_interfaces.Genode.Memory.Client.{Connection, Calls, initialize, finalize, address, size}
use ada_interfaces.Genode.Memory.Client.Lifetime.{RegionLaws, finalize-initialize}

record World : Type 0 where
  sessions : ℕ → Bool
  regions : ℕ → Option ℕ

abbrev set_session : ℕ → Bool → World → World
set_session s b w = record w { sessions = put_at w.sessions s b }

abbrev open_at : Bool → World → Option ℕ × World
open_at true w = (none, w)
open_at false w = (some 5, set_session 5 true w)

abbrev attach_at : Option ℕ → ℕ → World → Option ℕ × World
attach_at none cap w = (some 4096, record w { regions = put_at w.regions 4096 (some cap) })
attach_at (some c) cap w = (none, w)

abbrev end_of : Option Connection → World → Unit {0} × World
end_of none w = (tt, w)
end_of (some c) w = (tt, set_session c.session false w)

abbrev kernel : Calls World
kernel = record {
  factory = ready_factory;
  open_session = λ env args w. open_at (w.sessions 5) w;
  dataspace = λ s w. (s + 100, w);
  attach = λ env cap w. attach_at (w.regions 4096) cap w;
  close_session = λ s w. (tt, set_session s false w);
  destroy_connection = end_of;
}

some_path : (a b : ℕ) → some a ≡ some b → a ≡ b
some_path a b h = cc

open_given :
    (b : Bool) (s : ℕ) (w : World)
    → w.sessions 5 ≡ b
    → (open_at b w).0 ≡ some s
    → (w.sessions s ≡ false)
      × ((open_at b w).1.sessions s ≡ true)
      × ((o : ℕ) → o ≢ s → (open_at b w).1.sessions o ≡ w.sessions o)
open_given true s w e h = cc
open_given false s w e h =
    subst
      (λ s.
        (w.sessions s ≡ false)
        × (put_at w.sessions 5 true s ≡ true)
        × ((o : ℕ) → o ≢ s → put_at w.sessions 5 true o ≡ w.sessions o))
      (some_path 5 s h) (e, put_at-same w.sessions 5 true, put_at-other w.sessions 5 true)

open_refused :
    (b : Bool) (w : World)
    → (open_at b w).0 ≡ none
    → (o : ℕ) → (open_at b w).1.sessions o ≡ w.sessions o
open_refused true w h o = refl
open_refused false w h o = cc

open_mapped : (b : Bool) (a : ℕ) (w : World) → (open_at b w).1.regions a ≡ w.regions a
open_mapped true a w = refl
open_mapped false a w = refl

attach_given :
    (r : Option ℕ) (cap a : ℕ) (w : World)
    → w.regions 4096 ≡ r
    → (attach_at r cap w).0 ≡ some a
    → (w.regions a ≡ none)
      × ((attach_at r cap w).1.regions a ≡ some cap)
      × ((b : ℕ) → b ≢ a → (attach_at r cap w).1.regions b ≡ w.regions b)
attach_given none cap a w e h =
    subst
      (λ a.
        (w.regions a ≡ none)
        × (put_at w.regions 4096 (some cap) a ≡ some cap)
        × ((b : ℕ) → b ≢ a → put_at w.regions 4096 (some cap) b ≡ w.regions b))
      (some_path 4096 a h)
      (e, put_at-same w.regions 4096 (some cap), put_at-other w.regions 4096 (some cap))
attach_given (some c) cap a w e h = cc

attach_refused :
    (r : Option ℕ) (cap : ℕ) (w : World)
    → (attach_at r cap w).0 ≡ none
    → (a : ℕ) → (attach_at r cap w).1.regions a ≡ w.regions a
attach_refused none cap w h a = cc
attach_refused (some c) cap w h a = refl

attach_open :
    (r : Option ℕ) (cap o : ℕ) (w : World) → (attach_at r cap w).1.sessions o ≡ w.sessions o
attach_open none cap o w = refl
attach_open (some c) cap o w = refl

abbrev laws : RegionLaws kernel
laws = record {
  is_open = λ s w. w.sessions s;
  mapped = λ a w. w.regions a;
  space_of = λ s. s + 100;
  factory_same = λ env w. (λ o. refl, λ a. refl);
  constructed_same = λ w. (λ o. refl, λ a. refl);
  open_given = λ env args s w h. open_given (w.sessions 5) s w refl h;
  open_refused = λ env args w h. open_refused (w.sessions 5) w h;
  open_mapped = λ env args a w. open_mapped (w.sessions 5) a w;
  dataspace_same = λ s w. (refl, λ o. refl, λ a. refl);
  attach_given = λ env cap a w h. attach_given (w.regions 4096) cap a w refl h;
  attach_refused = λ env cap w h. attach_refused (w.regions 4096) cap w h;
  attach_open = λ env cap o w. attach_open (w.regions 4096) cap o w;
  close_done = λ s w. (put_at-same w.sessions s false, put_at-other w.sessions s false, λ a. refl);
  destroy_done =
      λ c w. (put_at-same w.sessions c.session false, put_at-other w.sessions c.session false);
}

abbrev fresh : World
fresh = record { sessions = λ s. false; regions = λ a. none }

abbrev begun : Option Connection × World
begun = initialize kernel (some 3) (98 ∷ []) (pos 8192) fresh

finalize-initialize_example :
    ((c : Connection) × (begun.0 ≡ some c)
      × (size kernel begun.0 ≡ some (pos 8192))
      × (address kernel begun.0 ≡ some c.addr)
      × (begun.1.sessions c.session ≡ true)
      × (fresh.regions c.addr ≡ none)
      × (begun.1.regions c.addr ≡ some (c.session + 100))
      × ((a : ℕ) → a ≢ c.addr → begun.1.regions a ≡ none)
      × ((o : ℕ) → (finalize kernel begun.0 begun.1).1.sessions o ≡ false))
    ⊎ ((begun.0 ≡ none)
        × ((o : ℕ) → begun.1.sessions o ≡ false)
        × ((a : ℕ) → begun.1.regions a ≡ none))
finalize-initialize_example =
    finalize-initialize kernel laws (some 3) (98 ∷ []) (pos 8192) fresh (omega arith)
