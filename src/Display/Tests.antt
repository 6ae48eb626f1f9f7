-- ===== src/Display/Tests.antt =====
-- Hashes, names and themes.
use lucky_scratch.Prelude.{◌≡◌, refl, ◌%◌}
use lucky_scratch.Prelude.Texts.{codes}
use lucky_scratch.Samples.{pool_with}
use lucky_scratch.Display.{
  get_pool_display_name, get_pool_short_creator, get_pool_visual_profile, get_pool_rarity, cosmic,
  Rarity, common,
}
use lucky_scratch.Display.Cover.{escaped, get_address_badge_text}
use lucky_scratch.Display.Hash.{hash_string, abs32, poly_from, hash_string_lem}

hash_test : hash_string (codes "hello, world") ≡ 640608884
unfolding hash_string abs32 lucky_scratch.Display.Hash.hash_from
    lucky_scratch.Display.Hash.hash_step
hash_test = refl

short_test : get_pool_short_creator (codes "0x123456789abcdef0") 6 4 ≡ codes "0x1234...def0"
unfolding get_pool_short_creator lucky_scratch.Prelude.Texts.trim
short_test = refl

profile_test : get_pool_visual_profile (pool_with 1 1 0) ≡ cosmic
unfolding get_pool_visual_profile lucky_scratch.Display.pool_theme_presets
    lucky_scratch.Display.theme_search_text
profile_test = refl

rarity_test : get_pool_rarity (pool_with 1 1 0) ≡ common
unfolding get_pool_rarity lucky_scratch.Money.from_micro_usdc
rarity_test = refl

escaped_test : escaped (codes "A<b>&c") ≡ codes "A&lt;b&gt;&amp;c"
unfolding escaped
escaped_test = refl

badge_test : get_address_badge_text (codes "0x123456789abcdef0") ≡ codes "0x12f0"
unfolding get_address_badge_text get_pool_short_creator lucky_scratch.Prelude.Texts.trim
badge_test = refl
