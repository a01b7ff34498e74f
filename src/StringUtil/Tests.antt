-- ===== src/StringUtil/Tests.antt =====
-- Concrete strings.
use homa.Base.{◌≡◌, refl, true, [], ◌∷◌}
use homa.StringUtil.{
  join, split, split_loop, get_line, starts_with, ends_with, trim, trim_front, trim_back, is_space,
}

-- "a,,b," has three items.
split_items : split (97 ∷ 44 ∷ 44 ∷ 98 ∷ 44 ∷ []) 44 ≡ (97 ∷ []) ∷ [] ∷ (98 ∷ []) ∷ []
unfolding split split_loop get_line
split_items = refl

join_items : join ((97 ∷ []) ∷ [] ∷ (98 ∷ []) ∷ []) (44 ∷ []) ≡ 97 ∷ 44 ∷ 44 ∷ 98 ∷ []
unfolding join
join_items = refl

ends : ends_with (97 ∷ 98 ∷ 99 ∷ []) (98 ∷ 99 ∷ []) ≡ true
unfolding ends_with
ends = refl

starts : starts_with (97 ∷ 98 ∷ 99 ∷ []) (97 ∷ 98 ∷ []) ≡ true
unfolding starts_with
starts = refl

trimmed : trim (32 ∷ 97 ∷ 32 ∷ 98 ∷ 9 ∷ []) ≡ 97 ∷ 32 ∷ 98 ∷ []
unfolding trim trim_front trim_back is_space
trimmed = refl
