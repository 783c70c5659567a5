-- ===== src/Net/Samples.antt =====
-- A peer that the tests share.
use hegel.Base.{refl, Text, bytes}
use hegel.Strings.Split.{IsFree}
use hegel.Net.{index_byte}
use hegel.Net.HostPort.{HasNoBracket, IsFree-of_index}

abbrev pub host : Text
host = bytes "10.0.0.1"

abbrev pub stranger : Text
stranger = bytes "fe80::1"

abbrev pub port : Text
port = bytes "41000"

pub host-HasNoBracket : HasNoBracket host
unfolding index_byte
host-HasNoBracket = (IsFree-of_index host b'[' refl, IsFree-of_index host b']' refl)

pub stranger-HasNoBracket : HasNoBracket stranger
unfolding index_byte
stranger-HasNoBracket = (IsFree-of_index stranger b'[' refl, IsFree-of_index stranger b']' refl)

pub port-HasNoBracket : HasNoBracket port
unfolding index_byte
port-HasNoBracket = (IsFree-of_index port b'[' refl, IsFree-of_index port b']' refl)

pub port-IsFree : IsFree b':' port
unfolding index_byte
port-IsFree = IsFree-of_index port b':' refl
