-- ===== src/Base/Streams.antt =====
-- A socket to be read: the list of what its reads return. An empty read is EOF, and the end of the list
-- is a read that does not return in time.
use pcsuite_rs.Base.{◌<◌, ◌≡◌, false, List, [], ◌∷◌, ◌++◌, length, is_empty, arith}
use pcsuite_rs.Base.Wire.{Bytes}

pub data Read : Type 0 where
  got : Bytes → Read
  failed : Read

abbrev pub IsNonempty : Bytes → Type 0
IsNonempty c = is_empty c ≡ false

abbrev pub concat : List Bytes → Bytes
concat [] = []
concat (c ∷ cs) = c ++ concat cs

-- The reads that return the chunks in turn, and then any others.
abbrev pub arrivals : List Bytes → List Read → List Read
arrivals [] later = later
arrivals (c ∷ cs) later = got c ∷ arrivals cs later

pub nonempty_length : (c : Bytes) → IsNonempty c → 0 < length c
nonempty_length [] h = cc
nonempty_length (b ∷ c) h = omega arith
