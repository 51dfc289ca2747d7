-- ===== src/Gs1/Lexer/Tables/CommandsA.antt =====
-- reborn_protocol/gs1/_tables.py: COMMANDS up to replaceani.
use reborn_protocol.Base.{List, [], ◌∷◌, true, false}
use reborn_protocol.Gs1.Lexer.Tables.Entry.{CommandRow, row}

abbrev pub first_commands : List CommandRow
first_commands =
    row "addguildmember" "SSS" false
    ∷ row "addstring" "VS" false
    ∷ row "addtiledef" "SSE" true
    ∷ row "addtiledef2" "SSEE" false
    ∷ row "addweapon" "S" false
    ∷ row "attachplayertoobj" "EE" false
    ∷ row "blockagain" "" false
    ∷ row "blockagainlocal" "" false
    ∷ row "callnpc" "ES" false
    ∷ row "callweapon" "ESS" false
    ∷ row "canbecarried" "" false
    ∷ row "canbepulled" "" false
    ∷ row "canbepushed" "" false
    ∷ row "cannotbecarried" "" false
    ∷ row "cannotbepulled" "" false
    ∷ row "cannotbepushed" "" false
    ∷ row "cannotwarp" "" false
    ∷ row "canwarp" "" false
    ∷ row "canwarp2" "" false
    ∷ row "carryobject" "U" false
    ∷ row "changeimgcolors" "EEEEE" false
    ∷ row "changeimgmode" "EE" false
    ∷ row "changeimgpart" "EEEEE" false
    ∷ row "changeimgvis" "EE" false
    ∷ row "changeimgzoom" "EE" false
    ∷ row "copylevel" "SS" false
    ∷ row "copystrings" "SS" false
    ∷ row "deletelevel" "S" false
    ∷ row "deletestring" "VE" false
    ∷ row "destroy" "" false
    ∷ row "detachplayer" "" false
    ∷ row "disabledamagereactions" "" false
    ∷ row "disabledefmovement" "" false
    ∷ row "disablemap" "" false
    ∷ row "disablepause" "" false
    ∷ row "disableselectweapons" "" false
    ∷ row "disableweapons" "" false
    ∷ row "dontblock" "" false
    ∷ row "dontblocklocal" "" false
    ∷ row "drawaslight" "" false
    ∷ row "drawoverplayer" "" false
    ∷ row "drawovertrees" "" false
    ∷ row "drawunderplayer" "" false
    ∷ row "enabledamagereactions" "" false
    ∷ row "enabledefmovement" "" false
    ∷ row "enablefeatures" "E" false
    ∷ row "enablemap" "" false
    ∷ row "enablepause" "" false
    ∷ row "enableselectweapons" "" false
    ∷ row "enableweapons" "" false
    ∷ row "explodebomb" "E" false
    ∷ row "followplayer" "" false
    ∷ row "freezeplayer" "E" true
    ∷ row "freezeplayer2" "" false
    ∷ row "gr-debugger" "" false
    ∷ row "hide" "" false
    ∷ row "hideimg" "E" false
    ∷ row "hideimgs" "EE" false
    ∷ row "hidelocal" "" false
    ∷ row "hideplayer" "E" false
    ∷ row "hidesword" "E" false
    ∷ row "hitcompu" "EEEE" false
    ∷ row "hitnpc" "EEEE" false
    ∷ row "hitobjects" "EEE" false
    ∷ row "hitplayer" "EEEE" false
    ∷ row "hurt" "E" true
    ∷ row "insertstring" "VES" false
    ∷ row "join" "S" false
    ∷ row "lay" "I" true
    ∷ row "lay2" "IEE" false
    ∷ row "loadmap" "S" false
    ∷ row "message" "S" false
    ∷ row "move" "EEEE" true
    ∷ row "noplayerkilling" "" false
    ∷ row "noplayeronwall" "" false
    ∷ row "openurl" "S" true
    ∷ row "openurl2" "SEE" true
    ∷ row "play" "S" true
    ∷ row "play2" "SEEE" true
    ∷ row "playlooped" "S" false
    ∷ row "putbomb" "EEE" false
    ∷ row "putcomp" "BEE" false
    ∷ row "putexplosion" "EEE" true
    ∷ row "putexplosion2" "EEEE" false
    ∷ row "puthorse" "SEE" false
    ∷ row "putleaps" "EEE" false
    ∷ row "putnewcomp" "BEESE" false
    ∷ row "putnpc" "SSEE" false
    ∷ row "putnpc2" "EEZ" false
    ∷ row "putobject" "SEE" false
    ∷ row "reflectarrow" "E" false
    ∷ row "removearrow" "E" false
    ∷ row "removebomb" "E" false
    ∷ row "removecompus" "" false
    ∷ row "removeexplo" "E" false
    ∷ row "removeguild" "S" false
    ∷ row "removeguildmember" "SSS" false
    ∷ row "removehorse" "E" false
    ∷ row "removeitem" "E" false
    ∷ row "removestring" "VS" false
    ∷ row "removetiledefs" "S" false
    ∷ row "removeweapon" "S" false
    ∷ row "replaceani" "SS" false
    ∷ []
