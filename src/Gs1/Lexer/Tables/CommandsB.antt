-- ===== src/Gs1/Lexer/Tables/CommandsB.antt =====
-- reborn_protocol/gs1/_tables.py: COMMANDS from replacestring.
use reborn_protocol.Base.{List, [], ◌∷◌, true, false}
use reborn_protocol.Gs1.Lexer.Tables.Entry.{CommandRow, row}

abbrev pub last_commands : List CommandRow
last_commands =
    row "replacestring" "VES" false
    ∷ row "resetfocus" "" false
    ∷ row "saveinfo" "SS" false
    ∷ row "savelog" "S" false
    ∷ row "savelog2" "SS" false
    ∷ row "say" "E" true
    ∷ row "say2" "R" false
    ∷ row "sendpm" "R" false
    ∷ row "sendrpgmessage" "S" false
    ∷ row "sendtonc" "S" false
    ∷ row "sendtorc" "S" false
    ∷ row "serverwarp" "S" false
    ∷ row "set" "V" true
    ∷ row "setani" "S" false
    ∷ row "setarray" "VE" false
    ∷ row "setbackpal" "S" false
    ∷ row "setbacktile" "E" false
    ∷ row "setbacktile2" "EEEEE" false
    ∷ row "setbeltcolor" "C" false
    ∷ row "setbody" "S" false
    ∷ row "setbow" "S" false
    ∷ row "setcharani" "S" false
    ∷ row "setchargender" "G" false
    ∷ row "setcharprop" "MS" false
    ∷ row "setcoatcolor" "C" false
    ∷ row "setcoloreffect" "EEEE" false
    ∷ row "setcursor" "E" true
    ∷ row "setcursor2" "S" false
    ∷ row "seteffect" "EEEE" true
    ∷ row "seteffectmode" "EEEE" true
    ∷ row "setfocus" "EE" false
    ∷ row "setgender" "G" false
    ∷ row "setgif" "S" true
    ∷ row "sethead" "S" false
    ∷ row "setimg" "S" false
    ∷ row "setimgpart" "SEEEE" false
    ∷ row "setletters" "S" false
    ∷ row "setlevel" "S" true
    ∷ row "setlevel2" "SEE" false
    ∷ row "setmap" "SSEE" false
    ∷ row "setminimap" "SSEE" false
    ∷ row "setmusicvolume" "EE" false
    ∷ row "setplayerdir" "D" false
    ∷ row "setplayerprop" "MS" false
    ∷ row "setpm" "S" false
    ∷ row "setshape" "EEE" true
    ∷ row "setshape2" "EEE" false
    ∷ row "setshield" "SE" false
    ∷ row "setshoecolor" "C" false
    ∷ row "setshootparams" "L" true
    ∷ row "setskincolor" "C" false
    ∷ row "setsleevecolor" "C" false
    ∷ row "setspritesimage" "S" false
    ∷ row "setstatusimage" "S" false
    ∷ row "setstring" "VS" false
    ∷ row "setsword" "SE" false
    ∷ row "seturllevel" "S" false
    ∷ row "setz" "EEEEEEEE" true
    ∷ row "setzoomeffect" "E" false
    ∷ row "shoot" "EEEEEES" true
    ∷ row "shootarrow" "D" false
    ∷ row "shootball" "" false
    ∷ row "shootfireball" "D" false
    ∷ row "shootfireblast" "D" false
    ∷ row "shootnuke" "D" false
    ∷ row "show" "" false
    ∷ row "showani" "EEEDS" false
    ∷ row "showani2" "EEEEDS" false
    ∷ row "showcharacter" "" false
    ∷ row "showfile" "S" false
    ∷ row "showimg" "ESEE" false
    ∷ row "showimg2" "ESEEE" false
    ∷ row "showlocal" "" false
    ∷ row "showpoly" "EE" false
    ∷ row "showpoly2" "EE" false
    ∷ row "showstats" "E" false
    ∷ row "showtext" "EEESSS" false
    ∷ row "showtext2" "EEEESSS" false
    ∷ row "sleep" "E" false
    ∷ row "spyfire" "EE" false
    ∷ row "stopmidi" "" false
    ∷ row "stopsound" "S" false
    ∷ row "take" "I" true
    ∷ row "take2" "E" false
    ∷ row "takehorse" "" false
    ∷ row "takeplayercarry" "" false
    ∷ row "takeplayerhorse" "" false
    ∷ row "throwcarry" "" false
    ∷ row "timereverywhere" "" false
    ∷ row "timershow" "" false
    ∷ row "toinventory" "S" false
    ∷ row "tokenize" "S" true
    ∷ row "tokenize2" "SS" false
    ∷ row "toweapons" "S" false
    ∷ row "triggeraction" "EESL" false
    ∷ row "unfreezeplayer" "" false
    ∷ row "unset" "V" true
    ∷ row "updateboard" "EEEE" false
    ∷ row "updateboard2" "EEEE" false
    ∷ row "updateterrain" "" false
    ∷ row "warpto" "SEE" false
    ∷ row "wraptext" "ESS" true
    ∷ row "wraptext2" "EESS" true
    ∷ []
