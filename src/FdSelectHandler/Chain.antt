-- ===== src/FdSelectHandler/Chain.antt =====
-- What `addTo` and `removeFromChain` do to a chain.
use slirp4tinc.Prelude.{
  ℕ, ◌<◌, ◌≡◌, ◌≢◌, refl, Option, none, some, List, ◌∷◌, arith, count, remove, count-remove,
}
use slirp4tinc.FdSelectHandler.{Handlers, unlinked, add_to, unlink_before, remove_from_chain}
use slirp4tinc.FdSelectHandler.Neighbours.{
  first, before, after, IsUnique, before-remove, after-remove, before_self, after_self,
  first-remove, first-before, before_other, first_member,
}

-- The chain of variable `c` has the handlers `l`, first to last, each linked to its neighbours.
pub record IsChain (s : Handlers) (c : ℕ) (l : List ℕ) : Type 0 where
  pub unique : IsUnique l
  pub head : s.chains c ≡ first l
  pub each :
      (i : ℕ)
      → 0 < count i l
      → s.links i ≡ record { prev = before none l i; next = after l i; chain = some c }

module _ (s : Handlers) (c h : ℕ) (l : List ℕ) (chained : IsChain s c l) where
  -- `addTo` puts a handler that is not in the chain in front of the others.
  pub add_to_lem : count h l ≡ 0 → IsChain (add_to h c s) c (h ∷ l)
  unfolding add_to
  add_to_lem absent = record {
    unique = λ i. ground (arith, absent, chained.unique i);
    head = ground arith;
    each = λ i m. ground (
      arith,
      m,
      absent,
      chained.each i,
      chained.head,
      first-before (some h) l i,
      first_member l h,
      before_other (some h) none l i,
    );
  }

  module _ (member : 0 < count h l) where
    own : s.links h ≡ record { prev = before none l h; next = after l h; chain = some c }
    own = chained.each h member

    still_member : (i : ℕ) → 0 < count i (remove h l) → (0 < count i l) × (h ≢ i)
    still_member i m = ground (arith, m, count-remove i h l, chained.unique i)

    -- The chain without the handler, by the links that the handler has.
    removed :
        (p n : Option ℕ)
        → s.links h ≡ record { prev = p; next = n; chain = some c }
        → before none l h ≡ p
        → after l h ≡ n
        → IsChain (remove_from_chain h s) c (remove h l)
    unfolding remove_from_chain unlink_before
    removed none n e eb ea = record {
      unique = λ i. ground (arith, count-remove i h l, chained.unique i);
      head = ground (arith, e, eb, ea, first-remove l h member);
      each = λ i m. ground (
        arith,
        e,
        eb,
        ea,
        still_member i m,
        chained.each i,
        before-remove none l h i chained.unique,
        after-remove none l h i chained.unique,
        before_self none l h chained.unique,
        after_self l h chained.unique,
      );
    }
    removed (some p) n e eb ea = record {
      unique = λ i. ground (arith, count-remove i h l, chained.unique i);
      head = ground (arith, e, eb, ea, first-remove l h member, chained.head);
      each = λ i m. ground (
        arith,
        e,
        eb,
        ea,
        still_member i m,
        chained.each i,
        before-remove none l h i chained.unique,
        after-remove none l h i chained.unique,
        before_self none l h chained.unique,
        after_self l h chained.unique,
      );
    }

    -- `removeFromChain` of a handler that is in a chain takes it out of the chain, with the others
    -- in order, and leaves it unlinked.
    pub remove_from_chain_lem :
        IsChain (remove_from_chain h s) c (remove h l)
        × ((remove_from_chain h s).links h ≡ unlinked)
    unfolding remove_from_chain
    remove_from_chain_lem = (removed (before none l h) (after l h) own refl refl, ground arith)
