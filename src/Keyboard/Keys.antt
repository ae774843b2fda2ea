-- ===== src/Keyboard/Keys.antt =====
-- Kernel/include/keyboard.h: the keys by their numbers; Kernel/drivers/keyboard.c: the tables from a
-- scancode to a key and from a key to its character, plain and with shift.
use tpe2_so.Base.{ℕ, List, [], ◌∷◌}

abbrev key_esc : ℕ
key_esc = 1

abbrev key_f1 : ℕ
key_f1 = 2

abbrev key_f2 : ℕ
key_f2 = 3

abbrev key_f3 : ℕ
key_f3 = 4

abbrev key_f4 : ℕ
key_f4 = 5

abbrev key_f5 : ℕ
key_f5 = 6

abbrev key_f6 : ℕ
key_f6 = 7

abbrev key_f7 : ℕ
key_f7 = 8

abbrev key_f8 : ℕ
key_f8 = 9

abbrev key_f9 : ℕ
key_f9 = 10

abbrev key_f10 : ℕ
key_f10 = 11

abbrev key_f11 : ℕ
key_f11 = 12

abbrev key_f12 : ℕ
key_f12 = 13

abbrev key_print_screen : ℕ
key_print_screen = 14

abbrev key_scroll_lock : ℕ
key_scroll_lock = 15

abbrev key_pause : ℕ
key_pause = 16

abbrev key_vertical_line : ℕ
key_vertical_line = 17

abbrev key_1 : ℕ
key_1 = 18

abbrev key_2 : ℕ
key_2 = 19

abbrev key_3 : ℕ
key_3 = 20

abbrev key_4 : ℕ
key_4 = 21

abbrev key_5 : ℕ
key_5 = 22

abbrev key_6 : ℕ
key_6 = 23

abbrev key_7 : ℕ
key_7 = 24

abbrev key_8 : ℕ
key_8 = 25

abbrev key_9 : ℕ
key_9 = 26

abbrev key_0 : ℕ
key_0 = 27

abbrev key_apostrophe : ℕ
key_apostrophe = 28

abbrev key_open_question : ℕ
key_open_question = 29

abbrev key_backspace : ℕ
key_backspace = 30

abbrev key_tab : ℕ
key_tab = 31

abbrev key_q : ℕ
key_q = 32

abbrev key_w : ℕ
key_w = 33

abbrev key_e : ℕ
key_e = 34

abbrev key_r : ℕ
key_r = 35

abbrev key_t : ℕ
key_t = 36

abbrev key_y : ℕ
key_y = 37

abbrev key_u : ℕ
key_u = 38

abbrev key_i : ℕ
key_i = 39

abbrev key_o : ℕ
key_o = 40

abbrev key_p : ℕ
key_p = 41

abbrev key_acute : ℕ
key_acute = 42

abbrev key_plus : ℕ
key_plus = 43

abbrev key_enter : ℕ
key_enter = 44

abbrev pub key_lock_caps : ℕ
key_lock_caps = 45

abbrev key_a : ℕ
key_a = 46

abbrev key_s : ℕ
key_s = 47

abbrev pub key_d : ℕ
key_d = 48

abbrev key_f : ℕ
key_f = 49

abbrev key_g : ℕ
key_g = 50

abbrev key_h : ℕ
key_h = 51

abbrev key_j : ℕ
key_j = 52

abbrev key_k : ℕ
key_k = 53

abbrev key_l : ℕ
key_l = 54

abbrev key_tilded_n : ℕ
key_tilded_n = 55

abbrev key_lbrace : ℕ
key_lbrace = 56

abbrev key_rbrace : ℕ
key_rbrace = 57

abbrev pub key_lshift : ℕ
key_lshift = 58

abbrev key_less_than : ℕ
key_less_than = 59

abbrev key_z : ℕ
key_z = 60

abbrev key_x : ℕ
key_x = 61

abbrev pub key_c : ℕ
key_c = 62

abbrev key_v : ℕ
key_v = 63

abbrev key_b : ℕ
key_b = 64

abbrev key_n : ℕ
key_n = 65

abbrev key_m : ℕ
key_m = 66

abbrev key_comma : ℕ
key_comma = 67

abbrev key_period : ℕ
key_period = 68

abbrev key_dash : ℕ
key_dash = 69

abbrev pub key_rshift : ℕ
key_rshift = 70

abbrev pub key_lctrl : ℕ
key_lctrl = 71

abbrev key_super : ℕ
key_super = 72

abbrev key_alt : ℕ
key_alt = 73

abbrev key_space : ℕ
key_space = 74

abbrev pub key_altgr : ℕ
key_altgr = 75

abbrev key_option : ℕ
key_option = 76

abbrev pub key_rctrl : ℕ
key_rctrl = 77

abbrev key_insert : ℕ
key_insert = 78

abbrev key_home : ℕ
key_home = 79

abbrev key_page_up : ℕ
key_page_up = 80

abbrev pub key_delete : ℕ
key_delete = 81

abbrev key_end : ℕ
key_end = 82

abbrev key_page_down : ℕ
key_page_down = 83

abbrev pub key_arrow_up : ℕ
key_arrow_up = 84

abbrev pub key_arrow_left : ℕ
key_arrow_left = 85

abbrev pub key_arrow_down : ℕ
key_arrow_down = 86

abbrev pub key_arrow_right : ℕ
key_arrow_right = 87

abbrev key_num_lock : ℕ
key_num_lock = 88

abbrev pub key_num_forward_slash : ℕ
key_num_forward_slash = 89

abbrev key_num_asterisc : ℕ
key_num_asterisc = 90

abbrev key_num_dash : ℕ
key_num_dash = 91

abbrev key_num_7 : ℕ
key_num_7 = 92

abbrev key_num_8 : ℕ
key_num_8 = 93

abbrev key_num_9 : ℕ
key_num_9 = 94

abbrev key_num_4 : ℕ
key_num_4 = 95

abbrev key_num_5 : ℕ
key_num_5 = 96

abbrev key_num_6 : ℕ
key_num_6 = 97

abbrev key_num_1 : ℕ
key_num_1 = 98

abbrev key_num_2 : ℕ
key_num_2 = 99

abbrev key_num_3 : ℕ
key_num_3 = 100

abbrev key_num_0 : ℕ
key_num_0 = 101

abbrev key_num_period : ℕ
key_num_period = 102

abbrev key_num_plus : ℕ
key_num_plus = 103

abbrev pub key_num_enter : ℕ
key_num_enter = 104

abbrev pub key_table : List ℕ
key_table =
    0 ∷ key_esc ∷ key_1 ∷ key_2 ∷ key_3 ∷ key_4 ∷ key_5 ∷ key_6 ∷ key_7 ∷ key_8 ∷ key_9 ∷ key_0
    ∷ key_apostrophe ∷ key_open_question ∷ key_backspace ∷ key_tab ∷ key_q ∷ key_w ∷ key_e ∷ key_r
    ∷ key_t ∷ key_y ∷ key_u ∷ key_i ∷ key_o ∷ key_p ∷ key_acute ∷ key_plus ∷ key_enter ∷ key_lctrl
    ∷ key_a ∷ key_s ∷ key_d ∷ key_f ∷ key_g ∷ key_h ∷ key_j ∷ key_k ∷ key_l ∷ key_tilded_n
    ∷ key_lbrace ∷ key_vertical_line ∷ key_lshift ∷ key_rbrace ∷ key_z ∷ key_x ∷ key_c ∷ key_v
    ∷ key_b ∷ key_n ∷ key_m ∷ key_comma ∷ key_period ∷ key_dash ∷ key_rshift ∷ key_num_asterisc
    ∷ key_alt ∷ key_space ∷ key_lock_caps ∷ key_f1 ∷ key_f2 ∷ key_f3 ∷ key_f4 ∷ key_f5 ∷ key_f6
    ∷ key_f7 ∷ key_f8 ∷ key_f9 ∷ key_f10 ∷ key_num_lock ∷ key_scroll_lock ∷ key_num_7 ∷ key_num_8
    ∷ key_num_9 ∷ key_num_dash ∷ key_num_4 ∷ key_num_5 ∷ key_num_6 ∷ key_num_plus ∷ key_num_1
    ∷ key_num_2 ∷ key_num_3 ∷ key_num_0 ∷ key_num_period ∷ 0 ∷ 0 ∷ key_less_than ∷ key_f11 ∷ key_f12
    ∷ []

abbrev pub ascii_table : List ℕ
ascii_table =
    0 ∷ 255 ∷ 0 ∷ 0 ∷ 0 ∷ 0 ∷ 0 ∷ 0 ∷ 0 ∷ 0 ∷ 0 ∷ 0 ∷ 0 ∷ 0 ∷ 0 ∷ 0 ∷ 0 ∷ 124 ∷ 49 ∷ 50 ∷ 51 ∷ 52
    ∷ 53 ∷ 54 ∷ 55 ∷ 56 ∷ 57 ∷ 48 ∷ 39 ∷ 168 ∷ 8 ∷ 9 ∷ 113 ∷ 119 ∷ 101 ∷ 114 ∷ 116 ∷ 121 ∷ 117 ∷ 105
    ∷ 111 ∷ 112 ∷ 39 ∷ 43 ∷ 10 ∷ 0 ∷ 97 ∷ 115 ∷ 100 ∷ 102 ∷ 103 ∷ 104 ∷ 106 ∷ 107 ∷ 108 ∷ 164 ∷ 123
    ∷ 125 ∷ 0 ∷ 60 ∷ 122 ∷ 120 ∷ 99 ∷ 118 ∷ 98 ∷ 110 ∷ 109 ∷ 44 ∷ 46 ∷ 45 ∷ 0 ∷ 0 ∷ 0 ∷ 0 ∷ 32 ∷ 0
    ∷ 0 ∷ 0 ∷ 0 ∷ 0 ∷ 0 ∷ 0 ∷ 0 ∷ 0 ∷ 0 ∷ 0 ∷ 0 ∷ 0 ∷ 0 ∷ 47 ∷ 42 ∷ 45 ∷ 55 ∷ 56 ∷ 57 ∷ 52 ∷ 53 ∷ 54
    ∷ 49 ∷ 50 ∷ 51 ∷ 48 ∷ 46 ∷ 43 ∷ 10 ∷ []

abbrev pub shift_ascii_table : List ℕ
shift_ascii_table =
    0 ∷ 255 ∷ 0 ∷ 0 ∷ 0 ∷ 0 ∷ 0 ∷ 0 ∷ 0 ∷ 0 ∷ 0 ∷ 0 ∷ 0 ∷ 0 ∷ 0 ∷ 0 ∷ 0 ∷ 248 ∷ 33 ∷ 34 ∷ 35 ∷ 36
    ∷ 37 ∷ 38 ∷ 47 ∷ 40 ∷ 41 ∷ 61 ∷ 63 ∷ 173 ∷ 8 ∷ 9 ∷ 113 ∷ 119 ∷ 101 ∷ 114 ∷ 116 ∷ 121 ∷ 117 ∷ 105
    ∷ 111 ∷ 112 ∷ 249 ∷ 42 ∷ 10 ∷ 0 ∷ 97 ∷ 115 ∷ 100 ∷ 102 ∷ 103 ∷ 104 ∷ 106 ∷ 107 ∷ 108 ∷ 165 ∷ 91
    ∷ 93 ∷ 0 ∷ 62 ∷ 122 ∷ 120 ∷ 99 ∷ 118 ∷ 98 ∷ 110 ∷ 109 ∷ 59 ∷ 58 ∷ 95 ∷ 0 ∷ 0 ∷ 0 ∷ 0 ∷ 32 ∷ 0
    ∷ 0 ∷ 0 ∷ 0 ∷ 0 ∷ 0 ∷ 0 ∷ 0 ∷ 0 ∷ 0 ∷ 0 ∷ 0 ∷ 0 ∷ 0 ∷ 47 ∷ 42 ∷ 45 ∷ 55 ∷ 56 ∷ 57 ∷ 52 ∷ 53 ∷ 54
    ∷ 49 ∷ 50 ∷ 51 ∷ 48 ∷ 46 ∷ 43 ∷ 10 ∷ []
