-- ===== src/Ssh/Packets.antt =====
-- protocols/ssh.cpp: the two packets that the client sends, byte for byte.
use nodescan.Prelude.{ℕ, List, [], ◌∷◌, ◌++◌}

abbrev proposal_0 : List ℕ
proposal_0 =
    0x00 ∷ 0x00 ∷ 0x05 ∷ 0xAC ∷ 0x04 ∷ 0x14 ∷ 0x45 ∷ 0x17 ∷ 0x1E ∷ 0xD1 ∷ 0x8D ∷ 0x29 ∷ 0x3F ∷ 0xC8
    ∷ 0xCF ∷ 0xD0 ∷ 0xE6 ∷ 0x00 ∷ 0x22 ∷ 0xE8 ∷ 0xE5 ∷ 0x2C ∷ 0x00 ∷ 0x00 ∷ 0x00 ∷ 0x38 ∷ 0x65
    ∷ 0x63 ∷ 0x64 ∷ 0x68 ∷ 0x2D ∷ 0x73 ∷ 0x68 ∷ 0x61 ∷ 0x32 ∷ 0x2D ∷ 0x6E ∷ 0x69 ∷ 0x73 ∷ 0x74
    ∷ 0x70 ∷ 0x32 ∷ 0x35 ∷ 0x36 ∷ 0x2C ∷ 0x65 ∷ 0x63 ∷ 0x64 ∷ 0x68 ∷ 0x2D ∷ 0x73 ∷ 0x68 ∷ 0x61
    ∷ 0x32 ∷ 0x2D ∷ 0x6E ∷ 0x69 ∷ 0x73 ∷ 0x74 ∷ 0x70 ∷ 0x33 ∷ 0x38 ∷ 0x34 ∷ 0x2C ∷ 0x65 ∷ 0x63
    ∷ 0x64 ∷ 0x68 ∷ 0x2D ∷ 0x73 ∷ 0x68 ∷ 0x61 ∷ 0x32 ∷ 0x2D ∷ 0x6E ∷ 0x69 ∷ 0x73 ∷ 0x74 ∷ 0x70
    ∷ 0x35 ∷ 0x32 ∷ 0x31 ∷ 0x00 ∷ 0x00 ∷ 0x00 ∷ 0x07 ∷ 0x73 ∷ 0x73 ∷ 0x68 ∷ 0x2D ∷ 0x72 ∷ 0x73
    ∷ 0x61 ∷ 0x00 ∷ 0x00 ∷ 0x00 ∷ 0xE9 ∷ 0x61 ∷ 0x65 ∷ 0x73 ∷ 0x31 ∷ 0x32 ∷ 0x38 ∷ 0x2D ∷ 0x63
    ∷ 0x74 ∷ 0x72 ∷ 0x2C ∷ 0x61 ∷ 0x65 ∷ 0x73 ∷ 0x31 ∷ 0x39 ∷ 0x32 ∷ 0x2D ∷ 0x63 ∷ 0x74 ∷ 0x72
    ∷ 0x2C ∷ 0x61 ∷ 0x65 ∷ 0x73 ∷ 0x32 ∷ 0x35 ∷ 0x36 ∷ 0x2D ∷ 0x63 ∷ 0x74 ∷ 0x72 ∷ 0x2C ∷ 0x61
    ∷ 0x72 ∷ 0x63 ∷ 0x66 ∷ 0x6F ∷ 0x75 ∷ 0x72 ∷ 0x32 ∷ 0x35 ∷ 0x36 ∷ 0x2C ∷ 0x61 ∷ 0x72 ∷ 0x63
    ∷ 0x66 ∷ 0x6F ∷ 0x75 ∷ 0x72 ∷ 0x31 ∷ 0x32 ∷ 0x38 ∷ 0x2C ∷ 0x61 ∷ 0x65 ∷ 0x73 ∷ 0x31 ∷ 0x32
    ∷ 0x38 ∷ 0x2D ∷ 0x67 ∷ 0x63 ∷ 0x6D ∷ 0x40 ∷ 0x6F ∷ 0x70 ∷ 0x65 ∷ 0x6E ∷ 0x73 ∷ 0x73 ∷ 0x68
    ∷ 0x2E ∷ 0x63 ∷ 0x6F ∷ 0x6D ∷ 0x2C ∷ 0x61 ∷ 0x65 ∷ 0x73 ∷ 0x32 ∷ 0x35 ∷ 0x36 ∷ 0x2D ∷ []

abbrev proposal_1 : List ℕ
proposal_1 =
    0x67 ∷ 0x63 ∷ 0x6D ∷ 0x40 ∷ 0x6F ∷ 0x70 ∷ 0x65 ∷ 0x6E ∷ 0x73 ∷ 0x73 ∷ 0x68 ∷ 0x2E ∷ 0x63 ∷ 0x6F
    ∷ 0x6D ∷ 0x2C ∷ 0x63 ∷ 0x68 ∷ 0x61 ∷ 0x63 ∷ 0x68 ∷ 0x61 ∷ 0x32 ∷ 0x30 ∷ 0x2D ∷ 0x70 ∷ 0x6F
    ∷ 0x6C ∷ 0x79 ∷ 0x31 ∷ 0x33 ∷ 0x30 ∷ 0x35 ∷ 0x40 ∷ 0x6F ∷ 0x70 ∷ 0x65 ∷ 0x6E ∷ 0x73 ∷ 0x73
    ∷ 0x68 ∷ 0x2E ∷ 0x63 ∷ 0x6F ∷ 0x6D ∷ 0x2C ∷ 0x61 ∷ 0x65 ∷ 0x73 ∷ 0x31 ∷ 0x32 ∷ 0x38 ∷ 0x2D
    ∷ 0x63 ∷ 0x62 ∷ 0x63 ∷ 0x2C ∷ 0x33 ∷ 0x64 ∷ 0x65 ∷ 0x73 ∷ 0x2D ∷ 0x63 ∷ 0x62 ∷ 0x63 ∷ 0x2C
    ∷ 0x62 ∷ 0x6C ∷ 0x6F ∷ 0x77 ∷ 0x66 ∷ 0x69 ∷ 0x73 ∷ 0x68 ∷ 0x2D ∷ 0x63 ∷ 0x62 ∷ 0x63 ∷ 0x2C
    ∷ 0x63 ∷ 0x61 ∷ 0x73 ∷ 0x74 ∷ 0x31 ∷ 0x32 ∷ 0x38 ∷ 0x2D ∷ 0x63 ∷ 0x62 ∷ 0x63 ∷ 0x2C ∷ 0x61
    ∷ 0x65 ∷ 0x73 ∷ 0x31 ∷ 0x39 ∷ 0x32 ∷ 0x2D ∷ 0x63 ∷ 0x62 ∷ 0x63 ∷ 0x2C ∷ 0x61 ∷ 0x65 ∷ 0x73
    ∷ 0x32 ∷ 0x35 ∷ 0x36 ∷ 0x2D ∷ 0x63 ∷ 0x62 ∷ 0x63 ∷ 0x2C ∷ 0x61 ∷ 0x72 ∷ 0x63 ∷ 0x66 ∷ 0x6F
    ∷ 0x75 ∷ 0x72 ∷ 0x2C ∷ 0x72 ∷ 0x69 ∷ 0x6A ∷ 0x6E ∷ 0x64 ∷ 0x61 ∷ 0x65 ∷ 0x6C ∷ 0x2D ∷ 0x63
    ∷ 0x62 ∷ 0x63 ∷ 0x40 ∷ 0x6C ∷ 0x79 ∷ 0x73 ∷ 0x61 ∷ 0x74 ∷ 0x6F ∷ 0x72 ∷ 0x2E ∷ 0x6C ∷ 0x69
    ∷ 0x75 ∷ 0x2E ∷ 0x73 ∷ 0x65 ∷ 0x00 ∷ 0x00 ∷ 0x00 ∷ 0xE9 ∷ 0x61 ∷ 0x65 ∷ 0x73 ∷ 0x31 ∷ 0x32
    ∷ 0x38 ∷ 0x2D ∷ 0x63 ∷ 0x74 ∷ 0x72 ∷ 0x2C ∷ 0x61 ∷ 0x65 ∷ 0x73 ∷ 0x31 ∷ 0x39 ∷ 0x32 ∷ 0x2D
    ∷ 0x63 ∷ 0x74 ∷ 0x72 ∷ 0x2C ∷ 0x61 ∷ 0x65 ∷ 0x73 ∷ 0x32 ∷ 0x35 ∷ 0x36 ∷ 0x2D ∷ 0x63 ∷ []

abbrev proposal_2 : List ℕ
proposal_2 =
    0x74 ∷ 0x72 ∷ 0x2C ∷ 0x61 ∷ 0x72 ∷ 0x63 ∷ 0x66 ∷ 0x6F ∷ 0x75 ∷ 0x72 ∷ 0x32 ∷ 0x35 ∷ 0x36 ∷ 0x2C
    ∷ 0x61 ∷ 0x72 ∷ 0x63 ∷ 0x66 ∷ 0x6F ∷ 0x75 ∷ 0x72 ∷ 0x31 ∷ 0x32 ∷ 0x38 ∷ 0x2C ∷ 0x61 ∷ 0x65
    ∷ 0x73 ∷ 0x31 ∷ 0x32 ∷ 0x38 ∷ 0x2D ∷ 0x67 ∷ 0x63 ∷ 0x6D ∷ 0x40 ∷ 0x6F ∷ 0x70 ∷ 0x65 ∷ 0x6E
    ∷ 0x73 ∷ 0x73 ∷ 0x68 ∷ 0x2E ∷ 0x63 ∷ 0x6F ∷ 0x6D ∷ 0x2C ∷ 0x61 ∷ 0x65 ∷ 0x73 ∷ 0x32 ∷ 0x35
    ∷ 0x36 ∷ 0x2D ∷ 0x67 ∷ 0x63 ∷ 0x6D ∷ 0x40 ∷ 0x6F ∷ 0x70 ∷ 0x65 ∷ 0x6E ∷ 0x73 ∷ 0x73 ∷ 0x68
    ∷ 0x2E ∷ 0x63 ∷ 0x6F ∷ 0x6D ∷ 0x2C ∷ 0x63 ∷ 0x68 ∷ 0x61 ∷ 0x63 ∷ 0x68 ∷ 0x61 ∷ 0x32 ∷ 0x30
    ∷ 0x2D ∷ 0x70 ∷ 0x6F ∷ 0x6C ∷ 0x79 ∷ 0x31 ∷ 0x33 ∷ 0x30 ∷ 0x35 ∷ 0x40 ∷ 0x6F ∷ 0x70 ∷ 0x65
    ∷ 0x6E ∷ 0x73 ∷ 0x73 ∷ 0x68 ∷ 0x2E ∷ 0x63 ∷ 0x6F ∷ 0x6D ∷ 0x2C ∷ 0x61 ∷ 0x65 ∷ 0x73 ∷ 0x31
    ∷ 0x32 ∷ 0x38 ∷ 0x2D ∷ 0x63 ∷ 0x62 ∷ 0x63 ∷ 0x2C ∷ 0x33 ∷ 0x64 ∷ 0x65 ∷ 0x73 ∷ 0x2D ∷ 0x63
    ∷ 0x62 ∷ 0x63 ∷ 0x2C ∷ 0x62 ∷ 0x6C ∷ 0x6F ∷ 0x77 ∷ 0x66 ∷ 0x69 ∷ 0x73 ∷ 0x68 ∷ 0x2D ∷ 0x63
    ∷ 0x62 ∷ 0x63 ∷ 0x2C ∷ 0x63 ∷ 0x61 ∷ 0x73 ∷ 0x74 ∷ 0x31 ∷ 0x32 ∷ 0x38 ∷ 0x2D ∷ 0x63 ∷ 0x62
    ∷ 0x63 ∷ 0x2C ∷ 0x61 ∷ 0x65 ∷ 0x73 ∷ 0x31 ∷ 0x39 ∷ 0x32 ∷ 0x2D ∷ 0x63 ∷ 0x62 ∷ 0x63 ∷ 0x2C
    ∷ 0x61 ∷ 0x65 ∷ 0x73 ∷ 0x32 ∷ 0x35 ∷ 0x36 ∷ 0x2D ∷ 0x63 ∷ 0x62 ∷ 0x63 ∷ 0x2C ∷ 0x61 ∷ 0x72
    ∷ 0x63 ∷ 0x66 ∷ 0x6F ∷ 0x75 ∷ 0x72 ∷ 0x2C ∷ 0x72 ∷ 0x69 ∷ 0x6A ∷ 0x6E ∷ 0x64 ∷ 0x61 ∷ []

abbrev proposal_3 : List ℕ
proposal_3 =
    0x65 ∷ 0x6C ∷ 0x2D ∷ 0x63 ∷ 0x62 ∷ 0x63 ∷ 0x40 ∷ 0x6C ∷ 0x79 ∷ 0x73 ∷ 0x61 ∷ 0x74 ∷ 0x6F ∷ 0x72
    ∷ 0x2E ∷ 0x6C ∷ 0x69 ∷ 0x75 ∷ 0x2E ∷ 0x73 ∷ 0x65 ∷ 0x00 ∷ 0x00 ∷ 0x01 ∷ 0x92 ∷ 0x68 ∷ 0x6D
    ∷ 0x61 ∷ 0x63 ∷ 0x2D ∷ 0x6D ∷ 0x64 ∷ 0x35 ∷ 0x2D ∷ 0x65 ∷ 0x74 ∷ 0x6D ∷ 0x40 ∷ 0x6F ∷ 0x70
    ∷ 0x65 ∷ 0x6E ∷ 0x73 ∷ 0x73 ∷ 0x68 ∷ 0x2E ∷ 0x63 ∷ 0x6F ∷ 0x6D ∷ 0x2C ∷ 0x68 ∷ 0x6D ∷ 0x61
    ∷ 0x63 ∷ 0x2D ∷ 0x73 ∷ 0x68 ∷ 0x61 ∷ 0x31 ∷ 0x2D ∷ 0x65 ∷ 0x74 ∷ 0x6D ∷ 0x40 ∷ 0x6F ∷ 0x70
    ∷ 0x65 ∷ 0x6E ∷ 0x73 ∷ 0x73 ∷ 0x68 ∷ 0x2E ∷ 0x63 ∷ 0x6F ∷ 0x6D ∷ 0x2C ∷ 0x75 ∷ 0x6D ∷ 0x61
    ∷ 0x63 ∷ 0x2D ∷ 0x36 ∷ 0x34 ∷ 0x2D ∷ 0x65 ∷ 0x74 ∷ 0x6D ∷ 0x40 ∷ 0x6F ∷ 0x70 ∷ 0x65 ∷ 0x6E
    ∷ 0x73 ∷ 0x73 ∷ 0x68 ∷ 0x2E ∷ 0x63 ∷ 0x6F ∷ 0x6D ∷ 0x2C ∷ 0x75 ∷ 0x6D ∷ 0x61 ∷ 0x63 ∷ 0x2D
    ∷ 0x31 ∷ 0x32 ∷ 0x38 ∷ 0x2D ∷ 0x65 ∷ 0x74 ∷ 0x6D ∷ 0x40 ∷ 0x6F ∷ 0x70 ∷ 0x65 ∷ 0x6E ∷ 0x73
    ∷ 0x73 ∷ 0x68 ∷ 0x2E ∷ 0x63 ∷ 0x6F ∷ 0x6D ∷ 0x2C ∷ 0x68 ∷ 0x6D ∷ 0x61 ∷ 0x63 ∷ 0x2D ∷ 0x73
    ∷ 0x68 ∷ 0x61 ∷ 0x32 ∷ 0x2D ∷ 0x32 ∷ 0x35 ∷ 0x36 ∷ 0x2D ∷ 0x65 ∷ 0x74 ∷ 0x6D ∷ 0x40 ∷ 0x6F
    ∷ 0x70 ∷ 0x65 ∷ 0x6E ∷ 0x73 ∷ 0x73 ∷ 0x68 ∷ 0x2E ∷ 0x63 ∷ 0x6F ∷ 0x6D ∷ 0x2C ∷ 0x68 ∷ 0x6D
    ∷ 0x61 ∷ 0x63 ∷ 0x2D ∷ 0x73 ∷ 0x68 ∷ 0x61 ∷ 0x32 ∷ 0x2D ∷ 0x35 ∷ 0x31 ∷ 0x32 ∷ 0x2D ∷ 0x65
    ∷ 0x74 ∷ 0x6D ∷ 0x40 ∷ 0x6F ∷ 0x70 ∷ 0x65 ∷ 0x6E ∷ 0x73 ∷ 0x73 ∷ 0x68 ∷ 0x2E ∷ 0x63 ∷ []

abbrev proposal_4 : List ℕ
proposal_4 =
    0x6F ∷ 0x6D ∷ 0x2C ∷ 0x68 ∷ 0x6D ∷ 0x61 ∷ 0x63 ∷ 0x2D ∷ 0x72 ∷ 0x69 ∷ 0x70 ∷ 0x65 ∷ 0x6D ∷ 0x64
    ∷ 0x31 ∷ 0x36 ∷ 0x30 ∷ 0x2D ∷ 0x65 ∷ 0x74 ∷ 0x6D ∷ 0x40 ∷ 0x6F ∷ 0x70 ∷ 0x65 ∷ 0x6E ∷ 0x73
    ∷ 0x73 ∷ 0x68 ∷ 0x2E ∷ 0x63 ∷ 0x6F ∷ 0x6D ∷ 0x2C ∷ 0x68 ∷ 0x6D ∷ 0x61 ∷ 0x63 ∷ 0x2D ∷ 0x73
    ∷ 0x68 ∷ 0x61 ∷ 0x31 ∷ 0x2D ∷ 0x39 ∷ 0x36 ∷ 0x2D ∷ 0x65 ∷ 0x74 ∷ 0x6D ∷ 0x40 ∷ 0x6F ∷ 0x70
    ∷ 0x65 ∷ 0x6E ∷ 0x73 ∷ 0x73 ∷ 0x68 ∷ 0x2E ∷ 0x63 ∷ 0x6F ∷ 0x6D ∷ 0x2C ∷ 0x68 ∷ 0x6D ∷ 0x61
    ∷ 0x63 ∷ 0x2D ∷ 0x6D ∷ 0x64 ∷ 0x35 ∷ 0x2D ∷ 0x39 ∷ 0x36 ∷ 0x2D ∷ 0x65 ∷ 0x74 ∷ 0x6D ∷ 0x40
    ∷ 0x6F ∷ 0x70 ∷ 0x65 ∷ 0x6E ∷ 0x73 ∷ 0x73 ∷ 0x68 ∷ 0x2E ∷ 0x63 ∷ 0x6F ∷ 0x6D ∷ 0x2C ∷ 0x68
    ∷ 0x6D ∷ 0x61 ∷ 0x63 ∷ 0x2D ∷ 0x6D ∷ 0x64 ∷ 0x35 ∷ 0x2C ∷ 0x68 ∷ 0x6D ∷ 0x61 ∷ 0x63 ∷ 0x2D
    ∷ 0x73 ∷ 0x68 ∷ 0x61 ∷ 0x31 ∷ 0x2C ∷ 0x75 ∷ 0x6D ∷ 0x61 ∷ 0x63 ∷ 0x2D ∷ 0x36 ∷ 0x34 ∷ 0x40
    ∷ 0x6F ∷ 0x70 ∷ 0x65 ∷ 0x6E ∷ 0x73 ∷ 0x73 ∷ 0x68 ∷ 0x2E ∷ 0x63 ∷ 0x6F ∷ 0x6D ∷ 0x2C ∷ 0x75
    ∷ 0x6D ∷ 0x61 ∷ 0x63 ∷ 0x2D ∷ 0x31 ∷ 0x32 ∷ 0x38 ∷ 0x40 ∷ 0x6F ∷ 0x70 ∷ 0x65 ∷ 0x6E ∷ 0x73
    ∷ 0x73 ∷ 0x68 ∷ 0x2E ∷ 0x63 ∷ 0x6F ∷ 0x6D ∷ 0x2C ∷ 0x68 ∷ 0x6D ∷ 0x61 ∷ 0x63 ∷ 0x2D ∷ 0x73
    ∷ 0x68 ∷ 0x61 ∷ 0x32 ∷ 0x2D ∷ 0x32 ∷ 0x35 ∷ 0x36 ∷ 0x2C ∷ 0x68 ∷ 0x6D ∷ 0x61 ∷ 0x63 ∷ 0x2D
    ∷ 0x73 ∷ 0x68 ∷ 0x61 ∷ 0x32 ∷ 0x2D ∷ 0x35 ∷ 0x31 ∷ 0x32 ∷ 0x2C ∷ 0x68 ∷ 0x6D ∷ 0x61 ∷ []

abbrev proposal_5 : List ℕ
proposal_5 =
    0x63 ∷ 0x2D ∷ 0x72 ∷ 0x69 ∷ 0x70 ∷ 0x65 ∷ 0x6D ∷ 0x64 ∷ 0x31 ∷ 0x36 ∷ 0x30 ∷ 0x2C ∷ 0x68 ∷ 0x6D
    ∷ 0x61 ∷ 0x63 ∷ 0x2D ∷ 0x72 ∷ 0x69 ∷ 0x70 ∷ 0x65 ∷ 0x6D ∷ 0x64 ∷ 0x31 ∷ 0x36 ∷ 0x30 ∷ 0x40
    ∷ 0x6F ∷ 0x70 ∷ 0x65 ∷ 0x6E ∷ 0x73 ∷ 0x73 ∷ 0x68 ∷ 0x2E ∷ 0x63 ∷ 0x6F ∷ 0x6D ∷ 0x2C ∷ 0x68
    ∷ 0x6D ∷ 0x61 ∷ 0x63 ∷ 0x2D ∷ 0x73 ∷ 0x68 ∷ 0x61 ∷ 0x31 ∷ 0x2D ∷ 0x39 ∷ 0x36 ∷ 0x2C ∷ 0x68
    ∷ 0x6D ∷ 0x61 ∷ 0x63 ∷ 0x2D ∷ 0x6D ∷ 0x64 ∷ 0x35 ∷ 0x2D ∷ 0x39 ∷ 0x36 ∷ 0x00 ∷ 0x00 ∷ 0x01
    ∷ 0x92 ∷ 0x68 ∷ 0x6D ∷ 0x61 ∷ 0x63 ∷ 0x2D ∷ 0x6D ∷ 0x64 ∷ 0x35 ∷ 0x2D ∷ 0x65 ∷ 0x74 ∷ 0x6D
    ∷ 0x40 ∷ 0x6F ∷ 0x70 ∷ 0x65 ∷ 0x6E ∷ 0x73 ∷ 0x73 ∷ 0x68 ∷ 0x2E ∷ 0x63 ∷ 0x6F ∷ 0x6D ∷ 0x2C
    ∷ 0x68 ∷ 0x6D ∷ 0x61 ∷ 0x63 ∷ 0x2D ∷ 0x73 ∷ 0x68 ∷ 0x61 ∷ 0x31 ∷ 0x2D ∷ 0x65 ∷ 0x74 ∷ 0x6D
    ∷ 0x40 ∷ 0x6F ∷ 0x70 ∷ 0x65 ∷ 0x6E ∷ 0x73 ∷ 0x73 ∷ 0x68 ∷ 0x2E ∷ 0x63 ∷ 0x6F ∷ 0x6D ∷ 0x2C
    ∷ 0x75 ∷ 0x6D ∷ 0x61 ∷ 0x63 ∷ 0x2D ∷ 0x36 ∷ 0x34 ∷ 0x2D ∷ 0x65 ∷ 0x74 ∷ 0x6D ∷ 0x40 ∷ 0x6F
    ∷ 0x70 ∷ 0x65 ∷ 0x6E ∷ 0x73 ∷ 0x73 ∷ 0x68 ∷ 0x2E ∷ 0x63 ∷ 0x6F ∷ 0x6D ∷ 0x2C ∷ 0x75 ∷ 0x6D
    ∷ 0x61 ∷ 0x63 ∷ 0x2D ∷ 0x31 ∷ 0x32 ∷ 0x38 ∷ 0x2D ∷ 0x65 ∷ 0x74 ∷ 0x6D ∷ 0x40 ∷ 0x6F ∷ 0x70
    ∷ 0x65 ∷ 0x6E ∷ 0x73 ∷ 0x73 ∷ 0x68 ∷ 0x2E ∷ 0x63 ∷ 0x6F ∷ 0x6D ∷ 0x2C ∷ 0x68 ∷ 0x6D ∷ 0x61
    ∷ 0x63 ∷ 0x2D ∷ 0x73 ∷ 0x68 ∷ 0x61 ∷ 0x32 ∷ 0x2D ∷ 0x32 ∷ 0x35 ∷ 0x36 ∷ 0x2D ∷ 0x65 ∷ []

abbrev proposal_6 : List ℕ
proposal_6 =
    0x74 ∷ 0x6D ∷ 0x40 ∷ 0x6F ∷ 0x70 ∷ 0x65 ∷ 0x6E ∷ 0x73 ∷ 0x73 ∷ 0x68 ∷ 0x2E ∷ 0x63 ∷ 0x6F ∷ 0x6D
    ∷ 0x2C ∷ 0x68 ∷ 0x6D ∷ 0x61 ∷ 0x63 ∷ 0x2D ∷ 0x73 ∷ 0x68 ∷ 0x61 ∷ 0x32 ∷ 0x2D ∷ 0x35 ∷ 0x31
    ∷ 0x32 ∷ 0x2D ∷ 0x65 ∷ 0x74 ∷ 0x6D ∷ 0x40 ∷ 0x6F ∷ 0x70 ∷ 0x65 ∷ 0x6E ∷ 0x73 ∷ 0x73 ∷ 0x68
    ∷ 0x2E ∷ 0x63 ∷ 0x6F ∷ 0x6D ∷ 0x2C ∷ 0x68 ∷ 0x6D ∷ 0x61 ∷ 0x63 ∷ 0x2D ∷ 0x72 ∷ 0x69 ∷ 0x70
    ∷ 0x65 ∷ 0x6D ∷ 0x64 ∷ 0x31 ∷ 0x36 ∷ 0x30 ∷ 0x2D ∷ 0x65 ∷ 0x74 ∷ 0x6D ∷ 0x40 ∷ 0x6F ∷ 0x70
    ∷ 0x65 ∷ 0x6E ∷ 0x73 ∷ 0x73 ∷ 0x68 ∷ 0x2E ∷ 0x63 ∷ 0x6F ∷ 0x6D ∷ 0x2C ∷ 0x68 ∷ 0x6D ∷ 0x61
    ∷ 0x63 ∷ 0x2D ∷ 0x73 ∷ 0x68 ∷ 0x61 ∷ 0x31 ∷ 0x2D ∷ 0x39 ∷ 0x36 ∷ 0x2D ∷ 0x65 ∷ 0x74 ∷ 0x6D
    ∷ 0x40 ∷ 0x6F ∷ 0x70 ∷ 0x65 ∷ 0x6E ∷ 0x73 ∷ 0x73 ∷ 0x68 ∷ 0x2E ∷ 0x63 ∷ 0x6F ∷ 0x6D ∷ 0x2C
    ∷ 0x68 ∷ 0x6D ∷ 0x61 ∷ 0x63 ∷ 0x2D ∷ 0x6D ∷ 0x64 ∷ 0x35 ∷ 0x2D ∷ 0x39 ∷ 0x36 ∷ 0x2D ∷ 0x65
    ∷ 0x74 ∷ 0x6D ∷ 0x40 ∷ 0x6F ∷ 0x70 ∷ 0x65 ∷ 0x6E ∷ 0x73 ∷ 0x73 ∷ 0x68 ∷ 0x2E ∷ 0x63 ∷ 0x6F
    ∷ 0x6D ∷ 0x2C ∷ 0x68 ∷ 0x6D ∷ 0x61 ∷ 0x63 ∷ 0x2D ∷ 0x6D ∷ 0x64 ∷ 0x35 ∷ 0x2C ∷ 0x68 ∷ 0x6D
    ∷ 0x61 ∷ 0x63 ∷ 0x2D ∷ 0x73 ∷ 0x68 ∷ 0x61 ∷ 0x31 ∷ 0x2C ∷ 0x75 ∷ 0x6D ∷ 0x61 ∷ 0x63 ∷ 0x2D
    ∷ 0x36 ∷ 0x34 ∷ 0x40 ∷ 0x6F ∷ 0x70 ∷ 0x65 ∷ 0x6E ∷ 0x73 ∷ 0x73 ∷ 0x68 ∷ 0x2E ∷ 0x63 ∷ 0x6F
    ∷ 0x6D ∷ 0x2C ∷ 0x75 ∷ 0x6D ∷ 0x61 ∷ 0x63 ∷ 0x2D ∷ 0x31 ∷ 0x32 ∷ 0x38 ∷ 0x40 ∷ 0x6F ∷ []

abbrev proposal_7 : List ℕ
proposal_7 =
    0x70 ∷ 0x65 ∷ 0x6E ∷ 0x73 ∷ 0x73 ∷ 0x68 ∷ 0x2E ∷ 0x63 ∷ 0x6F ∷ 0x6D ∷ 0x2C ∷ 0x68 ∷ 0x6D ∷ 0x61
    ∷ 0x63 ∷ 0x2D ∷ 0x73 ∷ 0x68 ∷ 0x61 ∷ 0x32 ∷ 0x2D ∷ 0x32 ∷ 0x35 ∷ 0x36 ∷ 0x2C ∷ 0x68 ∷ 0x6D
    ∷ 0x61 ∷ 0x63 ∷ 0x2D ∷ 0x73 ∷ 0x68 ∷ 0x61 ∷ 0x32 ∷ 0x2D ∷ 0x35 ∷ 0x31 ∷ 0x32 ∷ 0x2C ∷ 0x68
    ∷ 0x6D ∷ 0x61 ∷ 0x63 ∷ 0x2D ∷ 0x72 ∷ 0x69 ∷ 0x70 ∷ 0x65 ∷ 0x6D ∷ 0x64 ∷ 0x31 ∷ 0x36 ∷ 0x30
    ∷ 0x2C ∷ 0x68 ∷ 0x6D ∷ 0x61 ∷ 0x63 ∷ 0x2D ∷ 0x72 ∷ 0x69 ∷ 0x70 ∷ 0x65 ∷ 0x6D ∷ 0x64 ∷ 0x31
    ∷ 0x36 ∷ 0x30 ∷ 0x40 ∷ 0x6F ∷ 0x70 ∷ 0x65 ∷ 0x6E ∷ 0x73 ∷ 0x73 ∷ 0x68 ∷ 0x2E ∷ 0x63 ∷ 0x6F
    ∷ 0x6D ∷ 0x2C ∷ 0x68 ∷ 0x6D ∷ 0x61 ∷ 0x63 ∷ 0x2D ∷ 0x73 ∷ 0x68 ∷ 0x61 ∷ 0x31 ∷ 0x2D ∷ 0x39
    ∷ 0x36 ∷ 0x2C ∷ 0x68 ∷ 0x6D ∷ 0x61 ∷ 0x63 ∷ 0x2D ∷ 0x6D ∷ 0x64 ∷ 0x35 ∷ 0x2D ∷ 0x39 ∷ 0x36
    ∷ 0x00 ∷ 0x00 ∷ 0x00 ∷ 0x1A ∷ 0x7A ∷ 0x6C ∷ 0x69 ∷ 0x62 ∷ 0x40 ∷ 0x6F ∷ 0x70 ∷ 0x65 ∷ 0x6E
    ∷ 0x73 ∷ 0x73 ∷ 0x68 ∷ 0x2E ∷ 0x63 ∷ 0x6F ∷ 0x6D ∷ 0x2C ∷ 0x7A ∷ 0x6C ∷ 0x69 ∷ 0x62 ∷ 0x2C
    ∷ 0x6E ∷ 0x6F ∷ 0x6E ∷ 0x65 ∷ 0x00 ∷ 0x00 ∷ 0x00 ∷ 0x1A ∷ 0x7A ∷ 0x6C ∷ 0x69 ∷ 0x62 ∷ 0x40
    ∷ 0x6F ∷ 0x70 ∷ 0x65 ∷ 0x6E ∷ 0x73 ∷ 0x73 ∷ 0x68 ∷ 0x2E ∷ 0x63 ∷ 0x6F ∷ 0x6D ∷ 0x2C ∷ 0x7A
    ∷ 0x6C ∷ 0x69 ∷ 0x62 ∷ 0x2C ∷ 0x6E ∷ 0x6F ∷ 0x6E ∷ 0x65 ∷ 0x00 ∷ 0x00 ∷ 0x00 ∷ 0x00 ∷ 0x00
    ∷ 0x00 ∷ 0x00 ∷ 0x00 ∷ 0x00 ∷ 0x00 ∷ 0x00 ∷ 0x00 ∷ 0x00 ∷ 0x00 ∷ 0x00 ∷ 0x00 ∷ 0x00 ∷ []

-- `client_key_exchange`
abbrev pub client_key_exchange : List ℕ
client_key_exchange =
    proposal_0
    ++ (proposal_1
        ++ (proposal_2
            ++ (proposal_3 ++ (proposal_4 ++ (proposal_5 ++ (proposal_6 ++ (proposal_7)))))))

-- `client_dh`
abbrev pub client_dh : List ℕ
client_dh =
    0x00 ∷ 0x00 ∷ 0x00 ∷ 0x4C ∷ 0x05 ∷ 0x1E ∷ 0x00 ∷ 0x00 ∷ 0x00 ∷ 0x41 ∷ 0x04 ∷ 0x4A ∷ 0x57 ∷ 0x2B
    ∷ 0x2F ∷ 0xA8 ∷ 0x30 ∷ 0xD4 ∷ 0x02 ∷ 0x92 ∷ 0x5F ∷ 0x3E ∷ 0xE6 ∷ 0x9F ∷ 0x1F ∷ 0xE6 ∷ 0x69
    ∷ 0x67 ∷ 0x20 ∷ 0x58 ∷ 0x38 ∷ 0x38 ∷ 0x76 ∷ 0xD9 ∷ 0xA8 ∷ 0x3E ∷ 0x32 ∷ 0x6B ∷ 0xAD ∷ 0xED
    ∷ 0xBC ∷ 0xBF ∷ 0x0D ∷ 0x9C ∷ 0xAE ∷ 0xBC ∷ 0xAE ∷ 0xBB ∷ 0xCE ∷ 0xB6 ∷ 0x96 ∷ 0xD4 ∷ 0x03
    ∷ 0xB1 ∷ 0x04 ∷ 0x00 ∷ 0xA7 ∷ 0x16 ∷ 0xA9 ∷ 0x5D ∷ 0x75 ∷ 0x66 ∷ 0x44 ∷ 0x5B ∷ 0x6B ∷ 0x8F
    ∷ 0x63 ∷ 0x67 ∷ 0x08 ∷ 0x06 ∷ 0x47 ∷ 0xB6 ∷ 0x9C ∷ 0x69 ∷ 0x6A ∷ 0x00 ∷ 0x00 ∷ 0x00 ∷ 0x00
    ∷ 0x00 ∷ []
