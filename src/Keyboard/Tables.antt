-- ===== src/Keyboard/Tables.antt =====
-- The tables of src/geekos/keyboard.c that take a scan code to a keycode, and the codes of
-- include/geekos/keyboard.h. A character is its ASCII code.
use geekos.Base.{ℕ, ◌+◌, List, [], ◌∷◌}

-- _SPECIAL and _KEYPAD
abbrev pub special : ℕ → ℕ
special num = 256 + num

abbrev pub keypad : ℕ → ℕ
keypad num = 512 + 256 + (num + 128)

abbrev pub scan_table_no_shift : List ℕ
scan_table_no_shift =
    special 0
    ∷ 27
    ∷ 49
    ∷ 50
    ∷ 51
    ∷ 52
    ∷ 53
    ∷ 54
    ∷ 55
    ∷ 56
    ∷ 57
    ∷ 48
    ∷ 45
    ∷ 61
    ∷ 8
    ∷ 9
    ∷ 113
    ∷ 119
    ∷ 101
    ∷ 114
    ∷ 116
    ∷ 121
    ∷ 117
    ∷ 105
    ∷ 111
    ∷ 112
    ∷ 91
    ∷ 93
    ∷ 13
    ∷ special 13
    ∷ 97
    ∷ 115
    ∷ 100
    ∷ 102
    ∷ 103
    ∷ 104
    ∷ 106
    ∷ 107
    ∷ 108
    ∷ 59
    ∷ 39
    ∷ 96
    ∷ special 15
    ∷ 92
    ∷ 122
    ∷ 120
    ∷ 99
    ∷ 118
    ∷ 98
    ∷ 110
    ∷ 109
    ∷ 44
    ∷ 46
    ∷ 47
    ∷ special 16
    ∷ special 19
    ∷ special 17
    ∷ 32
    ∷ special 20
    ∷ special 1
    ∷ special 2
    ∷ special 3
    ∷ special 4
    ∷ special 5
    ∷ special 6
    ∷ special 7
    ∷ special 8
    ∷ special 9
    ∷ special 10
    ∷ special 21
    ∷ special 22
    ∷ keypad 0
    ∷ keypad 1
    ∷ keypad 2
    ∷ keypad 3
    ∷ keypad 4
    ∷ keypad 5
    ∷ keypad 6
    ∷ keypad 7
    ∷ keypad 8
    ∷ keypad 9
    ∷ keypad 10
    ∷ keypad 11
    ∷ keypad 12
    ∷ special 23
    ∷ special 0
    ∷ special 0
    ∷ special 0
    ∷ []

abbrev pub scan_table_with_shift : List ℕ
scan_table_with_shift =
    special 0
    ∷ 27
    ∷ 33
    ∷ 64
    ∷ 35
    ∷ 36
    ∷ 37
    ∷ 94
    ∷ 38
    ∷ 42
    ∷ 40
    ∷ 41
    ∷ 95
    ∷ 43
    ∷ 8
    ∷ 9
    ∷ 81
    ∷ 87
    ∷ 69
    ∷ 82
    ∷ 84
    ∷ 89
    ∷ 85
    ∷ 73
    ∷ 79
    ∷ 80
    ∷ 123
    ∷ 125
    ∷ 13
    ∷ special 13
    ∷ 65
    ∷ 83
    ∷ 68
    ∷ 70
    ∷ 71
    ∷ 72
    ∷ 74
    ∷ 75
    ∷ 76
    ∷ 58
    ∷ 34
    ∷ 126
    ∷ special 15
    ∷ 124
    ∷ 90
    ∷ 88
    ∷ 67
    ∷ 86
    ∷ 66
    ∷ 78
    ∷ 77
    ∷ 60
    ∷ 62
    ∷ 63
    ∷ special 16
    ∷ special 19
    ∷ special 17
    ∷ 32
    ∷ special 20
    ∷ special 1
    ∷ special 2
    ∷ special 3
    ∷ special 4
    ∷ special 5
    ∷ special 6
    ∷ special 7
    ∷ special 8
    ∷ special 9
    ∷ special 10
    ∷ special 21
    ∷ special 22
    ∷ keypad 0
    ∷ keypad 1
    ∷ keypad 2
    ∷ keypad 3
    ∷ keypad 4
    ∷ keypad 5
    ∷ keypad 6
    ∷ keypad 7
    ∷ keypad 8
    ∷ keypad 9
    ∷ keypad 10
    ∷ keypad 11
    ∷ keypad 12
    ∷ special 23
    ∷ special 0
    ∷ special 0
    ∷ special 0
    ∷ []
