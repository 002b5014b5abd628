-- ===== src/CharWidth/Zero.antt =====
-- `kZeroWidth` of src/terminal/CharWidth.cpp.
use ar_term.Prelude.{List, [], ◌∷◌}
use ar_term.CharWidth.Range.{Range, range}

unfoldable pub zero_width : List Range
zero_width =
    range 0x0300 0x036F
    ∷ range 0x0483 0x0489
    ∷ range 0x0591 0x05BD
    ∷ range 0x05BF 0x05BF
    ∷ range 0x05C1 0x05C2
    ∷ range 0x05C4 0x05C5
    ∷ range 0x05C7 0x05C7
    ∷ range 0x0610 0x061A
    ∷ range 0x064B 0x065F
    ∷ range 0x0670 0x0670
    ∷ range 0x06D6 0x06DC
    ∷ range 0x06DF 0x06E4
    ∷ range 0x06E7 0x06E8
    ∷ range 0x06EA 0x06ED
    ∷ range 0x0711 0x0711
    ∷ range 0x0730 0x074A
    ∷ range 0x07A6 0x07B0
    ∷ range 0x07EB 0x07F3
    ∷ range 0x0816 0x0819
    ∷ range 0x081B 0x0823
    ∷ range 0x0825 0x0827
    ∷ range 0x0829 0x082D
    ∷ range 0x0859 0x085B
    ∷ range 0x08E3 0x0903
    ∷ range 0x093A 0x093C
    ∷ range 0x093E 0x094F
    ∷ range 0x0951 0x0957
    ∷ range 0x0962 0x0963
    ∷ range 0x0981 0x0983
    ∷ range 0x09BC 0x09BC
    ∷ range 0x09BE 0x09CD
    ∷ range 0x09D7 0x09D7
    ∷ range 0x09E2 0x09E3
    ∷ range 0x0A01 0x0A03
    ∷ range 0x0A3C 0x0A51
    ∷ range 0x0A70 0x0A71
    ∷ range 0x0A75 0x0A75
    ∷ range 0x0A81 0x0A83
    ∷ range 0x0ABC 0x0ACD
    ∷ range 0x0AE2 0x0AE3
    ∷ range 0x0B01 0x0B03
    ∷ range 0x0B3C 0x0B57
    ∷ range 0x0B62 0x0B63
    ∷ range 0x0B82 0x0B82
    ∷ range 0x0BBE 0x0BCD
    ∷ range 0x0BD7 0x0BD7
    ∷ range 0x0C00 0x0C04
    ∷ range 0x0C3E 0x0C56
    ∷ range 0x0C62 0x0C63
    ∷ range 0x0C81 0x0C83
    ∷ range 0x0CBC 0x0CD6
    ∷ range 0x0CE2 0x0CE3
    ∷ range 0x0D01 0x0D03
    ∷ range 0x0D3E 0x0D4D
    ∷ range 0x0D57 0x0D57
    ∷ range 0x0D62 0x0D63
    ∷ range 0x0D82 0x0D83
    ∷ range 0x0DCA 0x0DDF
    ∷ range 0x0DF2 0x0DF3
    ∷ range 0x0E31 0x0E31
    ∷ range 0x0E34 0x0E3A
    ∷ range 0x0E47 0x0E4E
    ∷ range 0x0EB1 0x0EB1
    ∷ range 0x0EB4 0x0EBC
    ∷ range 0x0EC8 0x0ECD
    ∷ range 0x0F18 0x0F19
    ∷ range 0x0F35 0x0F35
    ∷ range 0x0F37 0x0F37
    ∷ range 0x0F39 0x0F39
    ∷ range 0x0F71 0x0F84
    ∷ range 0x0F86 0x0F87
    ∷ range 0x0F8D 0x0FBC
    ∷ range 0x0FC6 0x0FC6
    ∷ range 0x102B 0x103E
    ∷ range 0x1056 0x1059
    ∷ range 0x105E 0x1060
    ∷ range 0x1062 0x1064
    ∷ range 0x1067 0x106D
    ∷ range 0x1071 0x1074
    ∷ range 0x1082 0x108D
    ∷ range 0x108F 0x108F
    ∷ range 0x109A 0x109D
    ∷ range 0x135D 0x135F
    ∷ range 0x1712 0x1714
    ∷ range 0x1732 0x1734
    ∷ range 0x1752 0x1753
    ∷ range 0x1772 0x1773
    ∷ range 0x17B4 0x17D3
    ∷ range 0x17DD 0x17DD
    ∷ range 0x180B 0x180E
    ∷ range 0x18A9 0x18A9
    ∷ range 0x1920 0x193B
    ∷ range 0x1A17 0x1A1B
    ∷ range 0x1A55 0x1A7F
    ∷ range 0x1AB0 0x1AFF
    ∷ range 0x1B00 0x1B04
    ∷ range 0x1B34 0x1B44
    ∷ range 0x1B6B 0x1B73
    ∷ range 0x1B80 0x1B82
    ∷ range 0x1BA1 0x1BAD
    ∷ range 0x1BE6 0x1BF3
    ∷ range 0x1C24 0x1C37
    ∷ range 0x1CD0 0x1CD2
    ∷ range 0x1CD4 0x1CE8
    ∷ range 0x1CED 0x1CED
    ∷ range 0x1CF4 0x1CF4
    ∷ range 0x1CF8 0x1CF9
    ∷ range 0x1DC0 0x1DFF
    ∷ range 0x200B 0x200F
    ∷ range 0x202A 0x202E
    ∷ range 0x2060 0x2064
    ∷ range 0x2066 0x206F
    ∷ range 0x20D0 0x20F0
    ∷ range 0x2CEF 0x2CF1
    ∷ range 0x2D7F 0x2D7F
    ∷ range 0x2DE0 0x2DFF
    ∷ range 0x302A 0x302F
    ∷ range 0x3099 0x309A
    ∷ range 0xA66F 0xA672
    ∷ range 0xA674 0xA67D
    ∷ range 0xA69E 0xA69F
    ∷ range 0xA6F0 0xA6F1
    ∷ range 0xA802 0xA802
    ∷ range 0xA806 0xA806
    ∷ range 0xA80B 0xA80B
    ∷ range 0xA823 0xA827
    ∷ range 0xA880 0xA881
    ∷ range 0xA8B4 0xA8C5
    ∷ range 0xA8E0 0xA8F1
    ∷ range 0xA926 0xA92D
    ∷ range 0xA947 0xA953
    ∷ range 0xA980 0xA983
    ∷ range 0xA9B3 0xA9C0
    ∷ range 0xAA29 0xAA36
    ∷ range 0xAA43 0xAA43
    ∷ range 0xAA4C 0xAA4D
    ∷ range 0xAA7B 0xAA7D
    ∷ range 0xAAB0 0xAAB0
    ∷ range 0xAAB2 0xAAB4
    ∷ range 0xAAB7 0xAAB8
    ∷ range 0xAABE 0xAABF
    ∷ range 0xAAC1 0xAAC1
    ∷ range 0xAAEB 0xAAEF
    ∷ range 0xAAF5 0xAAF6
    ∷ range 0xABE3 0xABEA
    ∷ range 0xABEC 0xABED
    ∷ range 0xFB1E 0xFB1E
    ∷ range 0xFE00 0xFE0F
    ∷ range 0xFE20 0xFE2F
    ∷ range 0xFEFF 0xFEFF
    ∷ range 0xFFF9 0xFFFB
    ∷ range 0x101FD 0x101FD
    ∷ range 0x102E0 0x102E0
    ∷ range 0x10376 0x1037A
    ∷ range 0x10A01 0x10A0F
    ∷ range 0x10A38 0x10A3F
    ∷ range 0x11000 0x11002
    ∷ range 0x11038 0x11046
    ∷ range 0x1107F 0x11082
    ∷ range 0x110B0 0x110BA
    ∷ range 0x11100 0x11102
    ∷ range 0x11127 0x11134
    ∷ range 0x11180 0x11182
    ∷ range 0x111B3 0x111C0
    ∷ range 0x1122C 0x11237
    ∷ range 0x112DF 0x112EA
    ∷ range 0x11301 0x11303
    ∷ range 0x1133C 0x1134D
    ∷ range 0x11362 0x11374
    ∷ range 0x114B0 0x114C3
    ∷ range 0x115AF 0x115C0
    ∷ range 0x11630 0x11640
    ∷ range 0x116AB 0x116B7
    ∷ range 0x1171D 0x1172B
    ∷ range 0x16AF0 0x16AF4
    ∷ range 0x16B30 0x16B36
    ∷ range 0x1BC9D 0x1BC9E
    ∷ range 0x1D165 0x1D169
    ∷ range 0x1D16D 0x1D182
    ∷ range 0x1D185 0x1D18B
    ∷ range 0x1D1AA 0x1D1AD
    ∷ range 0x1D242 0x1D244
    ∷ range 0x1DA00 0x1DA8B
    ∷ range 0x1E8D0 0x1E8D6
    ∷ range 0xE0100 0xE01EF
    ∷ []
