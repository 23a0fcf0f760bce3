-- ===== src/Literals.antt =====
-- The string literals of the source: the keys of the packets, and the names of the clients'
-- operations.
use ocremote.Base.{[], ◌∷◌, Text}

abbrev pub name : Text
name = b'n' ∷ b'a' ∷ b'm' ∷ b'e' ∷ []

abbrev pub label : Text
label = b'l' ∷ b'a' ∷ b'b' ∷ b'e' ∷ b'l' ∷ []

abbrev pub damage : Text
damage = b'd' ∷ b'a' ∷ b'm' ∷ b'a' ∷ b'g' ∷ b'e' ∷ []

abbrev pub max_damage : Text
max_damage = b'm' ∷ b'a' ∷ b'x' ∷ b'D' ∷ b'a' ∷ b'm' ∷ b'a' ∷ b'g' ∷ b'e' ∷ []

abbrev pub max_size : Text
max_size = b'm' ∷ b'a' ∷ b'x' ∷ b'S' ∷ b'i' ∷ b'z' ∷ b'e' ∷ []

abbrev pub has_tag : Text
has_tag = b'h' ∷ b'a' ∷ b's' ∷ b'T' ∷ b'a' ∷ b'g' ∷ []

abbrev pub size : Text
size = b's' ∷ b'i' ∷ b'z' ∷ b'e' ∷ []

abbrev pub op : Text
op = b'o' ∷ b'p' ∷ []

abbrev pub color : Text
color = b'c' ∷ b'o' ∷ b'l' ∷ b'o' ∷ b'r' ∷ []

abbrev pub text : Text
text = b't' ∷ b'e' ∷ b'x' ∷ b't' ∷ []

abbrev pub beep : Text
beep = b'b' ∷ b'e' ∷ b'e' ∷ b'p' ∷ []

abbrev pub side : Text
side = b's' ∷ b'i' ∷ b'd' ∷ b'e' ∷ []

abbrev pub inv : Text
inv = b'i' ∷ b'n' ∷ b'v' ∷ []

abbrev pub entry : Text
entry = b'e' ∷ b'n' ∷ b't' ∷ b'r' ∷ b'y' ∷ []

abbrev pub filter : Text
filter = b'f' ∷ b'i' ∷ b'l' ∷ b't' ∷ b'e' ∷ b'r' ∷ []

abbrev pub args : Text
args = b'a' ∷ b'r' ∷ b'g' ∷ b's' ∷ []

abbrev pub me : Text
me = b'm' ∷ b'e' ∷ []

abbrev pub fn : Text
fn = b'f' ∷ b'n' ∷ []

abbrev pub print : Text
print = b'p' ∷ b'r' ∷ b'i' ∷ b'n' ∷ b't' ∷ []

abbrev pub list : Text
list = b'l' ∷ b'i' ∷ b's' ∷ b't' ∷ []

abbrev pub list_me : Text
list_me = b'l' ∷ b'i' ∷ b's' ∷ b't' ∷ b'M' ∷ b'E' ∷ []

abbrev pub xfer_me : Text
xfer_me = b'x' ∷ b'f' ∷ b'e' ∷ b'r' ∷ b'M' ∷ b'E' ∷ []

abbrev pub call : Text
call = b'c' ∷ b'a' ∷ b'l' ∷ b'l' ∷ []

abbrev pub transfer_item : Text
transfer_item =
    b't' ∷ b'r' ∷ b'a' ∷ b'n' ∷ b's' ∷ b'f' ∷ b'e' ∷ b'r' ∷ b'I' ∷ b't' ∷ b'e' ∷ b'm' ∷ []

abbrev pub is_craftable : Text
is_craftable = b'i' ∷ b's' ∷ b'C' ∷ b'r' ∷ b'a' ∷ b'f' ∷ b't' ∷ b'a' ∷ b'b' ∷ b'l' ∷ b'e' ∷ []

abbrev pub robot : Text
robot = b'r' ∷ b'o' ∷ b'b' ∷ b'o' ∷ b't' ∷ []

abbrev pub select : Text
select = b's' ∷ b'e' ∷ b'l' ∷ b'e' ∷ b'c' ∷ b't' ∷ []

abbrev pub inventory_controller : Text
inventory_controller =
    b'i' ∷ b'n' ∷ b'v' ∷ b'e' ∷ b'n' ∷ b't' ∷ b'o' ∷ b'r' ∷ b'y' ∷ b'_' ∷ b'c' ∷ b'o' ∷ b'n' ∷ b't'
    ∷ b'r' ∷ b'o' ∷ b'l' ∷ b'l' ∷ b'e' ∷ b'r' ∷ []

abbrev pub suck_from_slot : Text
suck_from_slot =
    b's' ∷ b'u' ∷ b'c' ∷ b'k' ∷ b'F' ∷ b'r' ∷ b'o' ∷ b'm' ∷ b'S' ∷ b'l' ∷ b'o' ∷ b't' ∷ []

abbrev pub transfer_to : Text
transfer_to = b't' ∷ b'r' ∷ b'a' ∷ b'n' ∷ b's' ∷ b'f' ∷ b'e' ∷ b'r' ∷ b'T' ∷ b'o' ∷ []

abbrev pub crafting : Text
crafting = b'c' ∷ b'r' ∷ b'a' ∷ b'f' ∷ b't' ∷ b'i' ∷ b'n' ∷ b'g' ∷ []

abbrev pub craft : Text
craft = b'c' ∷ b'r' ∷ b'a' ∷ b'f' ∷ b't' ∷ []

abbrev pub drop_into_slot : Text
drop_into_slot =
    b'd' ∷ b'r' ∷ b'o' ∷ b'p' ∷ b'I' ∷ b'n' ∷ b't' ∷ b'o' ∷ b'S' ∷ b'l' ∷ b'o' ∷ b't' ∷ []

abbrev pub get_hot_fluid_amount : Text
get_hot_fluid_amount =
    b'g' ∷ b'e' ∷ b't' ∷ b'H' ∷ b'o' ∷ b't' ∷ b'F' ∷ b'l' ∷ b'u' ∷ b'i' ∷ b'd' ∷ b'A' ∷ b'm' ∷ b'o'
    ∷ b'u' ∷ b'n' ∷ b't' ∷ []

abbrev pub get_hot_fluid_amount_max : Text
get_hot_fluid_amount_max =
    b'g' ∷ b'e' ∷ b't' ∷ b'H' ∷ b'o' ∷ b't' ∷ b'F' ∷ b'l' ∷ b'u' ∷ b'i' ∷ b'd' ∷ b'A' ∷ b'm' ∷ b'o'
    ∷ b'u' ∷ b'n' ∷ b't' ∷ b'M' ∷ b'a' ∷ b'x' ∷ []

abbrev pub get_energy_stored : Text
get_energy_stored =
    b'g' ∷ b'e' ∷ b't' ∷ b'E' ∷ b'n' ∷ b'e' ∷ b'r' ∷ b'g' ∷ b'y' ∷ b'S' ∷ b't' ∷ b'o' ∷ b'r' ∷ b'e'
    ∷ b'd' ∷ []

abbrev pub set_active : Text
set_active = b's' ∷ b'e' ∷ b't' ∷ b'A' ∷ b'c' ∷ b't' ∷ b'i' ∷ b'v' ∷ b'e' ∷ []

abbrev pub set_all_control_rod_levels : Text
set_all_control_rod_levels =
    b's' ∷ b'e' ∷ b't' ∷ b'A' ∷ b'l' ∷ b'l' ∷ b'C' ∷ b'o' ∷ b'n' ∷ b't' ∷ b'r' ∷ b'o' ∷ b'l' ∷ b'R'
    ∷ b'o' ∷ b'd' ∷ b'L' ∷ b'e' ∷ b'v' ∷ b'e' ∷ b'l' ∷ b's' ∷ []

abbrev pub select_color : Text
select_color = b's' ∷ b'e' ∷ b'l' ∷ b'e' ∷ b'c' ∷ b't' ∷ b'C' ∷ b'o' ∷ b'l' ∷ b'o' ∷ b'r' ∷ []

abbrev pub get_input : Text
get_input = b'g' ∷ b'e' ∷ b't' ∷ b'I' ∷ b'n' ∷ b'p' ∷ b'u' ∷ b't' ∷ []

abbrev pub set_output : Text
set_output = b's' ∷ b'e' ∷ b't' ∷ b'O' ∷ b'u' ∷ b't' ∷ b'p' ∷ b'u' ∷ b't' ∷ []

abbrev pub get_energy_info : Text
get_energy_info =
    b'g' ∷ b'e' ∷ b't' ∷ b'E' ∷ b'n' ∷ b'e' ∷ b'r' ∷ b'g' ∷ b'y' ∷ b'I' ∷ b'n' ∷ b'f' ∷ b'o' ∷ []

abbrev pub total_energy : Text
total_energy = b't' ∷ b'o' ∷ b't' ∷ b'a' ∷ b'l' ∷ b'E' ∷ b'n' ∷ b'e' ∷ b'r' ∷ b'g' ∷ b'y' ∷ []

abbrev pub cyanite_ingot : Text
cyanite_ingot =
    b'C' ∷ b'y' ∷ b'a' ∷ b'n' ∷ b'i' ∷ b't' ∷ b'e' ∷ b' ' ∷ b'I' ∷ b'n' ∷ b'g' ∷ b'o' ∷ b't' ∷ []

abbrev pub placeholder_name : Text
placeholder_name =
    b'O' ∷ b'C' ∷ b'R' ∷ b'e' ∷ b'm' ∷ b'o' ∷ b't' ∷ b'e' ∷ b'.' ∷ b'p' ∷ b'l' ∷ b'a' ∷ b'c' ∷ b'e'
    ∷ b'h' ∷ b'o' ∷ b'l' ∷ b'd' ∷ b'e' ∷ b'r' ∷ b'I' ∷ b't' ∷ b'e' ∷ b'm' ∷ b'.' ∷ b'n' ∷ b'a'
    ∷ b'm' ∷ b'e' ∷ []

abbrev pub placeholder_label : Text
placeholder_label =
    b'O' ∷ b'C' ∷ b'R' ∷ b'e' ∷ b'm' ∷ b'o' ∷ b't' ∷ b'e' ∷ b'.' ∷ b'p' ∷ b'l' ∷ b'a' ∷ b'c' ∷ b'e'
    ∷ b'h' ∷ b'o' ∷ b'l' ∷ b'd' ∷ b'e' ∷ b'r' ∷ b'I' ∷ b't' ∷ b'e' ∷ b'm' ∷ b'.' ∷ b'l' ∷ b'a'
    ∷ b'b' ∷ b'e' ∷ b'l' ∷ []

abbrev pub plastic : Text
plastic = b' ' ∷ b'P' ∷ b'l' ∷ b'a' ∷ b's' ∷ b't' ∷ b'i' ∷ b'c' ∷ []
