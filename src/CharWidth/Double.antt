-- ===== src/CharWidth/Double.antt =====
-- `kDoubleWidth` of src/terminal/CharWidth.cpp.
use ar_term.Prelude.{List, [], ◌∷◌}
use ar_term.CharWidth.Range.{Range, range}

unfoldable pub double_width : List Range
double_width =
    range 0x1100 0x115F
    ∷ range 0x231A 0x231B
    ∷ range 0x2329 0x232A
    ∷ range 0x23E9 0x23EC
    ∷ range 0x23F0 0x23F0
    ∷ range 0x23F3 0x23F3
    ∷ range 0x25FD 0x25FE
    ∷ range 0x2614 0x2615
    ∷ range 0x2648 0x2653
    ∷ range 0x267F 0x267F
    ∷ range 0x2693 0x2693
    ∷ range 0x26A1 0x26A1
    ∷ range 0x26AA 0x26AB
    ∷ range 0x26BD 0x26BE
    ∷ range 0x26C4 0x26C5
    ∷ range 0x26CE 0x26CE
    ∷ range 0x26D4 0x26D4
    ∷ range 0x26EA 0x26EA
    ∷ range 0x26F2 0x26F3
    ∷ range 0x26F5 0x26F5
    ∷ range 0x26FA 0x26FA
    ∷ range 0x26FD 0x26FD
    ∷ range 0x2705 0x2705
    ∷ range 0x270A 0x270B
    ∷ range 0x2728 0x2728
    ∷ range 0x274C 0x274C
    ∷ range 0x274E 0x274E
    ∷ range 0x2753 0x2755
    ∷ range 0x2757 0x2757
    ∷ range 0x2795 0x2797
    ∷ range 0x27B0 0x27B0
    ∷ range 0x27BF 0x27BF
    ∷ range 0x2B1B 0x2B1C
    ∷ range 0x2B50 0x2B50
    ∷ range 0x2B55 0x2B55
    ∷ range 0x2E80 0x303E
    ∷ range 0x3041 0x33FF
    ∷ range 0x3400 0x4DBF
    ∷ range 0x4E00 0x9FFF
    ∷ range 0xA000 0xA4CF
    ∷ range 0xA960 0xA97F
    ∷ range 0xAC00 0xD7A3
    ∷ range 0xF900 0xFAFF
    ∷ range 0xFE10 0xFE19
    ∷ range 0xFE30 0xFE6F
    ∷ range 0xFF00 0xFF60
    ∷ range 0xFFE0 0xFFE6
    ∷ range 0x16FE0 0x16FE4
    ∷ range 0x17000 0x187F7
    ∷ range 0x18800 0x18CD5
    ∷ range 0x1B000 0x1B2FB
    ∷ range 0x1F004 0x1F004
    ∷ range 0x1F0CF 0x1F0CF
    ∷ range 0x1F18E 0x1F18E
    ∷ range 0x1F191 0x1F19A
    ∷ range 0x1F200 0x1F320
    ∷ range 0x1F32D 0x1F335
    ∷ range 0x1F337 0x1F37C
    ∷ range 0x1F37E 0x1F393
    ∷ range 0x1F3A0 0x1F3CA
    ∷ range 0x1F3CF 0x1F3D3
    ∷ range 0x1F3E0 0x1F3F0
    ∷ range 0x1F3F4 0x1F3F4
    ∷ range 0x1F3F8 0x1F43E
    ∷ range 0x1F440 0x1F440
    ∷ range 0x1F442 0x1F4FC
    ∷ range 0x1F4FF 0x1F53D
    ∷ range 0x1F54B 0x1F54E
    ∷ range 0x1F550 0x1F567
    ∷ range 0x1F57A 0x1F57A
    ∷ range 0x1F595 0x1F596
    ∷ range 0x1F5A4 0x1F5A4
    ∷ range 0x1F5FB 0x1F64F
    ∷ range 0x1F680 0x1F6C5
    ∷ range 0x1F6CC 0x1F6CC
    ∷ range 0x1F6D0 0x1F6D2
    ∷ range 0x1F6EB 0x1F6EC
    ∷ range 0x1F6F4 0x1F6FC
    ∷ range 0x1F7E0 0x1F7EB
    ∷ range 0x1F90C 0x1F93A
    ∷ range 0x1F93C 0x1F945
    ∷ range 0x1F947 0x1F978
    ∷ range 0x1F97A 0x1F9CB
    ∷ range 0x1F9CD 0x1F9FF
    ∷ range 0x1FA70 0x1FA74
    ∷ range 0x1FA78 0x1FA7A
    ∷ range 0x1FA80 0x1FA86
    ∷ range 0x1FA90 0x1FAA8
    ∷ range 0x1FAB0 0x1FAB6
    ∷ range 0x1FAC0 0x1FAC2
    ∷ range 0x1FAD0 0x1FAD6
    ∷ range 0x20000 0x2FFFD
    ∷ range 0x30000 0x3FFFD
    ∷ []
