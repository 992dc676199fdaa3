-- ===== src/Tests/Order.antt =====
-- Finalize of two backends that Go visits in either order.
use elliptics_go.Base.{ℕ, All, ◌<◌, ◌≡◌, ◌∙◌, sym, arith, [], ◌∷◌, some, inl, inr}
use elliptics_go.Base.Int.{pos}
use elliptics_go.Stat.Types.{AddressBackend, StatGroup, new_stat_backend, address_backend_eq}
use elliptics_go.Stat.Ring.{finalize, id_value}
use elliptics_go.Stat.Ring.Total.{total}
use elliptics_go.Stat.Ring.Total.Collected.{AllIds, ids_of}
use elliptics_go.Stat.Ring.Points.Owners.{HasValue}
use elliptics_go.Stat.Ring.Points.Credits.{sum_at}
use elliptics_go.Stat.Ring.Order.{Covers, IsSole, finalize-order, IsShare}
use elliptics_go.Tests.Samples.{whole, sample_key, raw_id, owner}

abbrev other_key : AddressBackend
other_key = record sample_key { backend = pos 4 }

abbrev one_way : StatGroup ℕ
one_way = record {
  ab = (sample_key, owner (raw_id 3 ∷ [])) ∷ (other_key, owner (raw_id 128 ∷ [])) ∷ [];
}

abbrev other_way : StatGroup ℕ
other_way = record {
  ab = (other_key, owner (raw_id 128 ∷ [])) ∷ (sample_key, owner (raw_id 3 ∷ [])) ∷ [];
}

one_way-Covers : Covers one_way other_way
one_way-Covers o v (inl first) = inr (inl first)
one_way-Covers o v (inr (inl second)) = inl second
one_way-Covers o v (inr (inr none_left)) = absurd none_left

other_way-Covers : Covers other_way one_way
other_way-Covers o v (inl first) = inr (inl first)
other_way-Covers o v (inr (inl second)) = inl second
other_way-Covers o v (inr (inr none_left)) = absurd none_left

-- The two identifiers have different values.
values_differ : (v : ℕ) → HasValue v (raw_id 3 ∷ []) → HasValue v (raw_id 128 ∷ []) → ⊥
unfolding id_value
values_differ v (inl a) (inl b) = ground arith
values_differ v (inr none_left) b = none_left
values_differ v a (inr none_left) = none_left

one_way-IsSole : IsSole one_way
unfolding owner new_stat_backend
one_way-IsSole v o o' (inl (a, _)) (inl (b, _)) = a ∙ sym b
one_way-IsSole v o o' (inl (a, has)) (inr (inl (b, has'))) = absurd (values_differ v has has')
one_way-IsSole v o o' (inr (inl (a, has))) (inl (b, has')) = absurd (values_differ v has' has)
one_way-IsSole v o o' (inr (inl (a, _))) (inr (inl (b, _))) = a ∙ sym b
one_way-IsSole v o o' (inr (inr none_left)) owns = absurd none_left
one_way-IsSole v o o' owns (inr (inr none_left)) = absurd none_left

one_way_valid : AllIds one_way.ab × (total one_way.ab ≡ 0) × (0 < ids_of one_way.ab)
unfolding owner new_stat_backend
one_way_valid = (ground arith, ground arith, ground arith)

other_way_valid : AllIds other_way.ab × (total other_way.ab ≡ 0) × (0 < ids_of other_way.ab)
unfolding owner new_stat_backend
other_way_valid = (ground arith, ground arith, ground arith)

finalize-order_example :
    (f : StatGroup ℕ) × (f' : StatGroup ℕ) × (finalize one_way ≡ some f)
    × (finalize other_way ≡ some f')
    × ((ab : AddressBackend) → sum_at ab f.ab ≡ sum_at ab f'.ab)
    × All IsShare f.ab
    × All IsShare f'.ab
finalize-order_example =
    finalize-order one_way other_way one_way_valid.0 other_way_valid.0 one_way_valid.1
      other_way_valid.1 one_way_valid.2 other_way_valid.2 one_way-IsSole one_way-Covers
      other_way-Covers
