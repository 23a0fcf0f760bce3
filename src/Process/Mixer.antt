-- ===== src/Process/Mixer.antt =====
-- `ProcessPlasticMixer`: the mixer makes the plastic of which the least is there.
pub mod Least
use ocremote.Base.{
  ℕ, zero, suc, ◌+◌, Bool, true, false, Option, none, some, List, [], ◌∷◌, ◌++◌, map, Text,
  get_elem?, if◌then◌else◌,
}
use ocremote.Base.Int.{ℤ, pos, eq_ℤ, ltb_ℤ, leb_ℤ}
use ocremote.Serialize.Value.{Doubles, Value}
use ocremote.Serialize.Casts.{Casts}
use ocremote.Item.{ItemFilter}
use ocremote.Factory.Stock.{Stock, get_avail, get_item}
use ocremote.Action.{call}
use ocremote.Process.Reply.{AccessAddr, Reply, skip, send}
use ocremote.Literals

-- ProcessPlasticMixer::colorMap
abbrev pub color_map : List Text
color_map =
    (b'B' ∷ b'l' ∷ b'a' ∷ b'c' ∷ b'k' ∷ [])
    ∷ (b'R' ∷ b'e' ∷ b'd' ∷ [])
    ∷ (b'G' ∷ b'r' ∷ b'e' ∷ b'e' ∷ b'n' ∷ [])
    ∷ (b'B' ∷ b'r' ∷ b'o' ∷ b'w' ∷ b'n' ∷ [])
    ∷ (b'B' ∷ b'l' ∷ b'u' ∷ b'e' ∷ [])
    ∷ (b'P' ∷ b'u' ∷ b'r' ∷ b'p' ∷ b'l' ∷ b'e' ∷ [])
    ∷ (b'C' ∷ b'y' ∷ b'a' ∷ b'n' ∷ [])
    ∷ (b'L' ∷ b'i' ∷ b'g' ∷ b'h' ∷ b't' ∷ b' ' ∷ b'G' ∷ b'r' ∷ b'a' ∷ b'y' ∷ [])
    ∷ (b'G' ∷ b'r' ∷ b'a' ∷ b'y' ∷ [])
    ∷ (b'P' ∷ b'i' ∷ b'n' ∷ b'k' ∷ [])
    ∷ (b'L' ∷ b'i' ∷ b'm' ∷ b'e' ∷ [])
    ∷ (b'Y' ∷ b'e' ∷ b'l' ∷ b'l' ∷ b'o' ∷ b'w' ∷ [])
    ∷ (b'L' ∷ b'i' ∷ b'g' ∷ b'h' ∷ b't' ∷ b' ' ∷ b'B' ∷ b'l' ∷ b'u' ∷ b'e' ∷ [])
    ∷ (b'M' ∷ b'a' ∷ b'g' ∷ b'e' ∷ b'n' ∷ b't' ∷ b'a' ∷ [])
    ∷ (b'O' ∷ b'r' ∷ b'a' ∷ b'n' ∷ b'g' ∷ b'e' ∷ [])
    ∷ (b'W' ∷ b'h' ∷ b'i' ∷ b't' ∷ b'e' ∷ [])
    ∷ []

-- std::min_element from index `i` on: the first of the least values, and the value.
unfoldable pub min_element : ℕ → ℕ → ℤ → List ℤ → ℕ × ℤ
min_element i best least [] = (best, least)
min_element i best least (x ∷ xs) =
    let smaller = ltb_ℤ x least in
    min_element (i + 1) (if smaller then i else best) (if smaller then x else least) xs

-- `which` by what is there of each color, of which there is at least one: 0 is for off.
unfoldable pub choose_color : ℤ → ℤ → List ℤ → ℕ
unfolding min_element
choose_color needed first rest =
    let (which, least) = min_element 1 0 first rest in if leb_ℤ needed least then 0 else which + 1

module _ (F : Doubles) (C : Casts F) where
  open F use {Double}
  open C use {of_size}

  -- factory.getAvail(factory.getItem(ItemFilters::Label{i + " Plastic"}), true)
  unfoldable pub plastic_avail : Stock F → Text → ℤ
  plastic_avail s color =
      get_avail F s (get_item F s (ItemFilter.label (color ++ Literals.plastic))) true

  -- ProcessPlasticMixer::cycle up to the action; `none`: there are no colors.
  unfoldable pub which_color : Stock F → ℤ → List Text → Option ℕ
  unfolding plastic_avail choose_color
  which_color s needed [] = none
  which_color s needed (color ∷ colors) =
      some (choose_color needed (plastic_avail s color) (map (plastic_avail s) colors))

  unfoldable pub mixer_reply : ℤ → ℕ → AccessAddr → Reply Double
  mixer_reply prev which access =
      if eq_ℤ (pos which) prev
      then skip
      else send access.client
          (call access.addr Literals.select_color (Value.num (of_size which) ∷ []))
