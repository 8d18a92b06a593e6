-- ===== src/Scheduler/Earliest.antt =====
-- The reservation is the earliest one that any node offers, and there is one whenever some node in
-- service can hold the job at its full capacity.
use mathlib.Core.Path.{subst, subst⁻¹}
use mathlib.Core.Option.{some-injective}
use psychic_funicular.Base.{
  sym, ◌∙◌, ◌≡◌, refl, true, Option, none, some, List, [], ◌∷◌, ◌⊎◌, inl, inr, arith, if◌then◌else◌,
  Option-cases, All, All-map, All-Memᴰ, Memᴰ,
}
use psychic_funicular.Base.Int.{◌≤ℤ◌}
use psychic_funicular.Platform.{Platform}
use psychic_funicular.Time.{Time}
use psychic_funicular.Model.{Node, Job}
use psychic_funicular.Scheduler.Reservation.{
  node_reservation_time, eligible, earlier, reservation_loop, reservation_time,
}
use psychic_funicular.Scheduler.Released.{NoWrap, node_reservation_found}

abbrev better : Option Time → Option Time → Option Time
better best none = best
better best (some t) = some (earlier best t)

better_le : (best : Option Time) (t : Time) → earlier best t ≤ℤ t
better_le none t = omega arith
better_le (some b) t = ground arith

better-cases :
    (best o : Option Time) (t : Time) → better best o ≡ some t → (best ≡ some t) ⊎ (o ≡ some t)
better-cases best none t e = inl e
better-cases none (some t') t e = inr e
better-cases (some b) (some t') t e = ground arith

-- The result is a time that is no later than `b`.
abbrev EndsAtMost : Option Time → Time → Type 0
EndsAtMost r b = (t : Time) × (r ≡ some t) × (t ≤ℤ b)

EndsAtMost-trans : (r : Option Time) (a b : Time) → EndsAtMost r a → a ≤ℤ b → EndsAtMost r b
EndsAtMost-trans r a b (t, e, h) k = (t, e, omega (arith, h, k))

module _ (p : Platform) (now : Time) (blocked : Job) (active : List Job) where
  -- What a node offers for the blocked job.
  abbrev pub offer : Node → Option Time
  offer n = if eligible p blocked n then node_reservation_time p now blocked n active else none

  abbrev search_from : Option Time → List Node → Option Time
  search_from best ns = reservation_loop p now blocked active best ns

  reservation_loop_step :
      (best : Option Time) (n : Node) (ns : List Node)
      → search_from best (n ∷ ns) ≡ search_from (better best (offer n)) ns
  unfolding reservation_loop
  reservation_loop_step best n ns = ground arith

  reservation_loop_le :
      (best : Option Time) (b : Time) (ns : List Node)
      → best ≡ some b
      → EndsAtMost (search_from best ns) b
  unfolding reservation_loop
  reservation_loop_le best b [] e = (b, e, omega arith)
  reservation_loop_le best b (n ∷ ns) e =
      subst⁻¹ (λ r. EndsAtMost r b) (reservation_loop_step best n ns)
        (elim (Option-cases (offer n)) [
          | inl no_offer ↦ reservation_loop_le (better best (offer n)) b ns (rw no_offer e)
          | inr (t, offered) ↦
              EndsAtMost-trans _ (earlier best t) b
                (reservation_loop_le (better best (offer n)) (earlier best t) ns (rw offered))
                (rw e (ground arith))
        ])

  reservation_loop_least :
      (best : Option Time) (ns : List Node)
      → All (λ n. (t : Time) → offer n ≡ some t → EndsAtMost (search_from best ns) t) ns
  unfolding reservation_loop
  reservation_loop_least best [] = tt
  reservation_loop_least best (n ∷ ns) = (
    λ t offered.
        subst⁻¹ (λ r. EndsAtMost r t) (reservation_loop_step best n ns)
          (EndsAtMost-trans _ (earlier best t) t
            (reservation_loop_le (better best (offer n)) (earlier best t) ns (rw offered))
            (better_le best t)),
    subst⁻¹ (λ r. All (λ m. (t : Time) → offer m ≡ some t → EndsAtMost r t) ns)
        (reservation_loop_step best n ns) (reservation_loop_least (better best (offer n)) ns),
  )

  -- The time that was found is the first one, or a node of the list offers it.
  abbrev Offered : Option Time → List Node → Time → Type 0
  Offered best ns t = (best ≡ some t) ⊎ ((n : Node) × Memᴰ n ns × (offer n ≡ some t))

  reservation_loop-Offered :
      (best : Option Time) (ns : List Node) (t : Time)
      → search_from best ns ≡ some t
      → Offered best ns t
  unfolding reservation_loop
  reservation_loop-Offered best [] t e = inl e
  reservation_loop-Offered best (n ∷ ns) t e =
      elim (reservation_loop-Offered (better best (offer n)) ns t
        (sym (reservation_loop_step best n ns) ∙ e)) [
          | inr (m, listed, offered) ↦ inr (m, Memᴰ.tail listed, offered)
          | inl found ↦ elim (better-cases best (offer n) t found) [
            | inl first ↦ inl first
            | inr offered ↦ inr (n, Memᴰ.head refl, offered)
          ]
        ]

  -- The reservation of a job is the time that some node of the list in service offers, a node that can
  -- hold the job at its full capacity; and no such node offers an earlier one.
  pub reservation_earliest :
      (nodes : List Node) (t : Time)
      → reservation_time p now blocked nodes active ≡ some t
      → ((n : Node) × Memᴰ n nodes × (offer n ≡ some t))
        × All (λ n. (t' : Time) → offer n ≡ some t' → t ≤ℤ t') nodes
  unfolding reservation_time
  reservation_earliest nodes t e = (
    elim (reservation_loop-Offered none nodes t e) [
      | inl no_time ↦ absurd (ground arith)
      | inr o ↦ o
    ],
    All-map (λ n least t' offered. same_time t' (least t' offered)) nodes
        (reservation_loop_least none nodes),
  )
    where
      same_time : (t' : Time) → EndsAtMost (search_from none nodes) t' → t ≤ℤ t'
      same_time t' (s, e', h) = subst (λ x. x ≤ℤ t') (some-injective _ _ (sym e' ∙ e)) h

  -- If a node of the list can hold the job at its full capacity, and the sums on that node stay below
  -- the limits of uint32 and uint64, then the job gets a reservation, no later than that node's offer.
  pub reservation_found :
      (nodes : List Node) (n : Node)
      → Memᴰ n nodes
      → eligible p blocked n ≡ true
      → NoWrap p now blocked active n
      → (t : Time) × (t' : Time) × (reservation_time p now blocked nodes active ≡ some t)
        × (node_reservation_time p now blocked n active ≡ some t')
        × (t ≤ℤ t')
  unfolding reservation_time
  reservation_found nodes n m e small =
      let (t', offered) = node_reservation_found p now blocked active n e small in
      let (t, found, h) = least m (reservation_loop_least none nodes) t' (rw e offered) in
      (t, t', found, offered, h)
    where
      least :
          {x : Node} {xs : List Node}
          → Memᴰ x xs
          → All (λ n. (t : Time) → offer n ≡ some t → EndsAtMost (search_from none nodes) t) xs
          → (t : Time) → offer x ≡ some t
          → EndsAtMost (search_from none nodes) t
      least = All-Memᴰ (λ n. (t : Time) → offer n ≡ some t → EndsAtMost (search_from none nodes) t)
