-- ===== src/Gs1/Lexer/Tables/Functions.antt =====
-- reborn_protocol/gs1/_tables.py: FUNCTIONS and MESSAGECODES.
use reborn_protocol.Base.{List, [], ◌∷◌}
use reborn_protocol.Gs1.Lexer.Tables.Entry.{ArgumentRow, arguments}

abbrev pub function_rows : List ArgumentRow
function_rows =
    arguments "abs" "(P)"
    ∷ arguments "aindexof" "(P)"
    ∷ arguments "arctan" "(P)"
    ∷ arguments "arraylen" "(P)"
    ∷ arguments "ascii" "(P)"
    ∷ arguments "base64decode" "(S)"
    ∷ arguments "base64encode" "(S)"
    ∷ arguments "cos" "(P)"
    ∷ arguments "exp" "(P)"
    ∷ arguments "findnearestplayer" "(P)"
    ∷ arguments "findnearestplayers" "(P)"
    ∷ arguments "format" "(P)"
    ∷ arguments "findnpc" "(S)"
    ∷ arguments "findplayer" "(S)"
    ∷ arguments "findNPC" "(S)"
    ∷ arguments "findPlayer" "(S)"
    ∷ arguments "degtorad" "(P)"
    ∷ arguments "getangle" "(P)"
    ∷ arguments "getareanpcs" "(P)"
    ∷ arguments "getdir" "(P)"
    ∷ arguments "getflagkeys" "(S)"
    ∷ arguments "getnearestplayer" "(P)"
    ∷ arguments "passwordmatches" "(SS)"
    ∷ arguments "getnearestplayers" "(P)"
    ∷ arguments "getnpc" "(S)"
    ∷ arguments "getplayer" "(S)"
    ∷ arguments "getimgheight" "(S)"
    ∷ arguments "getimgwidth" "(S)"
    ∷ arguments "getz" "(P)"
    ∷ arguments "hasweapon" "(S)"
    ∷ arguments "imgheight" "(S)"
    ∷ arguments "imgwidth" "(S)"
    ∷ arguments "indexof" "(SS)"
    ∷ arguments "int" "(P)"
    ∷ arguments "keycode" "(S)"
    ∷ arguments "keydown" "(P)"
    ∷ arguments "keydown2" "(P)"
    ∷ arguments "lindexof" "(SV)"
    ∷ arguments "log" "(P)"
    ∷ arguments "max" "(P)"
    ∷ arguments "makevar" "(S)"
    ∷ arguments "min" "(P)"
    ∷ arguments "_" "(P)"
    ∷ arguments "onmapx" "(S)"
    ∷ arguments "onmapy" "(S)"
    ∷ arguments "onwall" "(P)"
    ∷ arguments "onwall2" "(P)"
    ∷ arguments "onwater" "(P)"
    ∷ arguments "onwater2" "(P)"
    ∷ arguments "playersays" "<ES)"
    ∷ arguments "playersays2" "<ES)"
    ∷ arguments "random" "(P)"
    ∷ arguments "sarraylen" "(V)"
    ∷ arguments "screenx" "(P)"
    ∷ arguments "screeny" "(P)"
    ∷ arguments "sin" "(P)"
    ∷ arguments "startswith" "(SS)"
    ∷ arguments "strcontains" "(SS)"
    ∷ arguments "strequals" "(SS)"
    ∷ arguments "strlen" "(S)"
    ∷ arguments "strtofloat" "(S)"
    ∷ arguments "testbomb" "(P)"
    ∷ arguments "testcompu" "(P)"
    ∷ arguments "testexplo" "(P)"
    ∷ arguments "testhorse" "(P)"
    ∷ arguments "testitem" "(P)"
    ∷ arguments "testnpc" "(P)"
    ∷ arguments "testplayer" "(P)"
    ∷ arguments "testsign" "(P)"
    ∷ arguments "textheight" "(ESSS)"
    ∷ arguments "textwidth" "(ESSS)"
    ∷ arguments "tiletype" "(P)"
    ∷ arguments "vecx" "(P)"
    ∷ arguments "vecy" "(P)"
    ∷ arguments "worldx" "(P)"
    ∷ arguments "worldy" "(P)"
    ∷ []

abbrev pub messagecode_rows : List ArgumentRow
messagecode_rows =
    arguments "#E" "(S)"
    ∷ arguments "#I" "(VP)"
    ∷ arguments "#Q" "(SS)"
    ∷ arguments "#R" "(L)"
    ∷ arguments "#T" "(S)"
    ∷ arguments "#U" "(R)"
    ∷ arguments "#e" "(EES)"
    ∷ arguments "#i" "(SP)"
    ∷ arguments "#s" "(V)"
    ∷ arguments "#v" "(E)"
    ∷ []
