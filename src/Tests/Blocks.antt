-- ===== src/Tests/Blocks.antt =====
-- A block of 100 octets with an object in it.
use http_proto.Base.{refl, true, [], ◌∷◌, arith}
use http_proto.Workspace.{Space, object, request}
use http_proto.Workspace.Regions.{Answer, request-Answer}

abbrev block : Space
block = record {
  allocated = true;
  begin = 1000;
  front = 1010;
  head = 1072;
  back = 1100;
  last = 1100;
  objects = record { at = 1072; next = 1100 } ∷ [];
}

request-Answer_example : Answer (object 24 16) block (request (object 24 16) block)
request-Answer_example =
    request-Answer (object 24 16) block (omega arith, omega arith)
      (omega arith, omega arith, omega arith, omega arith, (refl, omega arith, refl))
