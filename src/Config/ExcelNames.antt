-- ===== src/Config/ExcelNames.antt =====
-- The names that internal/config/excel_names.go refuses: macro keywords of Excel 4.0 and the built-in
-- worksheet functions.
use Prim.Native.String.{String}
use xll_gen.Prelude.{List, [], ◌∷◌}

unfoldable pub xlm_reserved_names_list : List String
xlm_reserved_names_list =
    "ABSREF" ∷ "ALERT" ∷ "ARGUMENT" ∷ "BEEP" ∷ "BREAK" ∷ "CALLER" ∷ "CLOSE" ∷ "COPY" ∷ "CUT"
    ∷ "DEREF" ∷ "DIRECTORY" ∷ "DUPLICATE" ∷ "ECHO" ∷ "EXEC" ∷ "FCLOSE" ∷ "FOPEN" ∷ "FPOS" ∷ "FREAD"
    ∷ "FREADLN" ∷ "FSIZE" ∷ "FWRITE" ∷ "FWRITELN" ∷ "GOTO" ∷ "HALT" ∷ "HELP" ∷ "HIDE" ∷ "HLINE"
    ∷ "HPAGE" ∷ "HSCROLL" ∷ "INPUT" ∷ "LEGEND" ∷ "MESSAGE" ∷ "MOVE" ∷ "NEW" ∷ "NOTE" ∷ "OPEN"
    ∷ "PASTE" ∷ "PRECISION" ∷ "PRINT" ∷ "QUIT" ∷ "REFTEXT" ∷ "REGISTER" ∷ "RELREF" ∷ "RESTART"
    ∷ "RESULT" ∷ "RETURN" ∷ "RUN" ∷ "SAVE" ∷ "SELECT" ∷ "SELECTION" ∷ "SIZE" ∷ "SORT" ∷ "SPLIT"
    ∷ "STEP" ∷ "TABLE" ∷ "TEXTREF" ∷ "UNDO" ∷ "UNHIDE" ∷ "UNREGISTER" ∷ "VLINE" ∷ "VOLATILE"
    ∷ "VPAGE" ∷ "VSCROLL" ∷ "WAIT" ∷ "WHILE" ∷ []

unfoldable pub builtin_function_names_list : List String
builtin_function_names_list =
    "ABS" ∷ "ACOS" ∷ "ACOSH" ∷ "ACOT" ∷ "ACOTH" ∷ "AGGREGATE" ∷ "ARABIC" ∷ "ASIN" ∷ "ASINH" ∷ "ATAN"
    ∷ "ATAN2" ∷ "ATANH" ∷ "BASE" ∷ "CEILING" ∷ "CEILING.MATH" ∷ "CEILING.PRECISE" ∷ "COMBIN"
    ∷ "COMBINA" ∷ "COS" ∷ "COSH" ∷ "COT" ∷ "COTH" ∷ "CSC" ∷ "CSCH" ∷ "DECIMAL" ∷ "DEGREES" ∷ "EVEN"
    ∷ "EXP" ∷ "FACT" ∷ "FACTDOUBLE" ∷ "FLOOR" ∷ "FLOOR.MATH" ∷ "FLOOR.PRECISE" ∷ "GCD" ∷ "INT"
    ∷ "ISO.CEILING" ∷ "LCM" ∷ "LN" ∷ "LOG" ∷ "LOG10" ∷ "MDETERM" ∷ "MINVERSE" ∷ "MMULT" ∷ "MOD"
    ∷ "MROUND" ∷ "MULTINOMIAL" ∷ "MUNIT" ∷ "ODD" ∷ "PI" ∷ "POWER" ∷ "PRODUCT" ∷ "QUOTIENT"
    ∷ "RADIANS" ∷ "RAND" ∷ "RANDARRAY" ∷ "RANDBETWEEN" ∷ "ROMAN" ∷ "ROUND" ∷ "ROUNDDOWN" ∷ "ROUNDUP"
    ∷ "SEC" ∷ "SECH" ∷ "SEQUENCE" ∷ "SERIESSUM" ∷ "SIGN" ∷ "SIN" ∷ "SINH" ∷ "SQRT" ∷ "SQRTPI"
    ∷ "SUBTOTAL" ∷ "SUM" ∷ "SUMIF" ∷ "SUMIFS" ∷ "SUMPRODUCT" ∷ "SUMSQ" ∷ "SUMX2MY2" ∷ "SUMX2PY2"
    ∷ "SUMXMY2" ∷ "TAN" ∷ "TANH" ∷ "TRUNC" ∷ "AVEDEV" ∷ "AVERAGE" ∷ "AVERAGEA" ∷ "AVERAGEIF"
    ∷ "AVERAGEIFS" ∷ "BETA.DIST" ∷ "BETA.INV" ∷ "BETADIST" ∷ "BETAINV" ∷ "BINOM.DIST"
    ∷ "BINOM.DIST.RANGE" ∷ "BINOM.INV" ∷ "BINOMDIST" ∷ "CHIDIST" ∷ "CHIINV" ∷ "CHISQ.DIST"
    ∷ "CHISQ.DIST.RT" ∷ "CHISQ.INV" ∷ "CHISQ.INV.RT" ∷ "CHISQ.TEST" ∷ "CHITEST" ∷ "CONFIDENCE"
    ∷ "CONFIDENCE.NORM" ∷ "CONFIDENCE.T" ∷ "CORREL" ∷ "COUNT" ∷ "COUNTA" ∷ "COUNTBLANK" ∷ "COUNTIF"
    ∷ "COUNTIFS" ∷ "COVAR" ∷ "COVARIANCE.P" ∷ "COVARIANCE.S" ∷ "CRITBINOM" ∷ "DEVSQ" ∷ "EXPON.DIST"
    ∷ "EXPONDIST" ∷ "F.DIST" ∷ "F.DIST.RT" ∷ "F.INV" ∷ "F.INV.RT" ∷ "F.TEST" ∷ "FDIST" ∷ "FINV"
    ∷ "FISHER" ∷ "FISHERINV" ∷ "FORECAST" ∷ "FORECAST.ETS" ∷ "FORECAST.ETS.CONFINT"
    ∷ "FORECAST.ETS.SEASONALITY" ∷ "FORECAST.ETS.STAT" ∷ "FORECAST.LINEAR" ∷ "FREQUENCY" ∷ "FTEST"
    ∷ "GAMMA" ∷ "GAMMA.DIST" ∷ "GAMMA.INV" ∷ "GAMMADIST" ∷ "GAMMAINV" ∷ "GAMMALN"
    ∷ "GAMMALN.PRECISE" ∷ "GAUSS" ∷ "GEOMEAN" ∷ "GROWTH" ∷ "HARMEAN" ∷ "HYPGEOM.DIST"
    ∷ "HYPGEOMDIST" ∷ "INTERCEPT" ∷ "KURT" ∷ "LARGE" ∷ "LINEST" ∷ "LOGEST" ∷ "LOGINV"
    ∷ "LOGNORM.DIST" ∷ "LOGNORM.INV" ∷ "LOGNORMDIST" ∷ "MAX" ∷ "MAXA" ∷ "MAXIFS" ∷ "MEDIAN" ∷ "MIN"
    ∷ "MINA" ∷ "MINIFS" ∷ "MODE" ∷ "MODE.MULT" ∷ "MODE.SNGL" ∷ "NEGBINOM.DIST" ∷ "NEGBINOMDIST"
    ∷ "NORM.DIST" ∷ "NORM.INV" ∷ "NORM.S.DIST" ∷ "NORM.S.INV" ∷ "NORMDIST" ∷ "NORMINV" ∷ "NORMSDIST"
    ∷ "NORMSINV" ∷ "PEARSON" ∷ "PERCENTILE" ∷ "PERCENTILE.EXC" ∷ "PERCENTILE.INC" ∷ "PERCENTRANK"
    ∷ "PERCENTRANK.EXC" ∷ "PERCENTRANK.INC" ∷ "PERMUT" ∷ "PERMUTATIONA" ∷ "PHI" ∷ "POISSON"
    ∷ "POISSON.DIST" ∷ "PROB" ∷ "QUARTILE" ∷ "QUARTILE.EXC" ∷ "QUARTILE.INC" ∷ "RANK" ∷ "RANK.AVG"
    ∷ "RANK.EQ" ∷ "RSQ" ∷ "SKEW" ∷ "SKEW.P" ∷ "SLOPE" ∷ "SMALL" ∷ "STANDARDIZE" ∷ "STDEV"
    ∷ "STDEV.P" ∷ "STDEV.S" ∷ "STDEVA" ∷ "STDEVP" ∷ "STDEVPA" ∷ "STEYX" ∷ "T.DIST" ∷ "T.DIST.2T"
    ∷ "T.DIST.RT" ∷ "T.INV" ∷ "T.INV.2T" ∷ "T.TEST" ∷ "TDIST" ∷ "TINV" ∷ "TREND" ∷ "TRIMMEAN"
    ∷ "TTEST" ∷ "VAR" ∷ "VAR.P" ∷ "VAR.S" ∷ "VARA" ∷ "VARP" ∷ "VARPA" ∷ "WEIBULL" ∷ "WEIBULL.DIST"
    ∷ "Z.TEST" ∷ "ZTEST" ∷ "ARRAYTOTEXT" ∷ "ASC" ∷ "BAHTTEXT" ∷ "CHAR" ∷ "CLEAN" ∷ "CODE" ∷ "CONCAT"
    ∷ "CONCATENATE" ∷ "DBCS" ∷ "DOLLAR" ∷ "EXACT" ∷ "FIND" ∷ "FINDB" ∷ "FIXED" ∷ "JIS" ∷ "LEFT"
    ∷ "LEFTB" ∷ "LEN" ∷ "LENB" ∷ "LOWER" ∷ "MID" ∷ "MIDB" ∷ "NUMBERVALUE" ∷ "PHONETIC" ∷ "PROPER"
    ∷ "REPLACE" ∷ "REPLACEB" ∷ "REPT" ∷ "RIGHT" ∷ "RIGHTB" ∷ "SEARCH" ∷ "SEARCHB" ∷ "SUBSTITUTE"
    ∷ "T" ∷ "TEXT" ∷ "TEXTAFTER" ∷ "TEXTBEFORE" ∷ "TEXTJOIN" ∷ "TEXTSPLIT" ∷ "TRIM" ∷ "UNICHAR"
    ∷ "UNICODE" ∷ "UPPER" ∷ "VALUE" ∷ "VALUETOTEXT" ∷ "AND" ∷ "BYCOL" ∷ "BYROW" ∷ "FALSE" ∷ "IF"
    ∷ "IFERROR" ∷ "IFNA" ∷ "IFS" ∷ "ISOMITTED" ∷ "LAMBDA" ∷ "LET" ∷ "MAKEARRAY" ∷ "MAP" ∷ "NOT"
    ∷ "OR" ∷ "REDUCE" ∷ "SCAN" ∷ "SWITCH" ∷ "TRUE" ∷ "XOR" ∷ "ADDRESS" ∷ "AREAS" ∷ "CHOOSE"
    ∷ "CHOOSECOLS" ∷ "CHOOSEROWS" ∷ "COLUMN" ∷ "COLUMNS" ∷ "DROP" ∷ "EXPAND" ∷ "FILTER"
    ∷ "FORMULATEXT" ∷ "GETPIVOTDATA" ∷ "GROUPBY" ∷ "HLOOKUP" ∷ "HSTACK" ∷ "HYPERLINK" ∷ "IMAGE"
    ∷ "INDEX" ∷ "INDIRECT" ∷ "LOOKUP" ∷ "MATCH" ∷ "OFFSET" ∷ "PIVOTBY" ∷ "ROW" ∷ "ROWS" ∷ "RTD"
    ∷ "SORTBY" ∷ "TAKE" ∷ "TOCOL" ∷ "TOROW" ∷ "TRANSPOSE" ∷ "UNIQUE" ∷ "VLOOKUP" ∷ "VSTACK"
    ∷ "WRAPCOLS" ∷ "WRAPROWS" ∷ "XLOOKUP" ∷ "XMATCH" ∷ "DATE" ∷ "DATEDIF" ∷ "DATEVALUE" ∷ "DAY"
    ∷ "DAYS" ∷ "DAYS360" ∷ "EDATE" ∷ "EOMONTH" ∷ "HOUR" ∷ "ISOWEEKNUM" ∷ "MINUTE" ∷ "MONTH"
    ∷ "NETWORKDAYS" ∷ "NETWORKDAYS.INTL" ∷ "NOW" ∷ "SECOND" ∷ "TIME" ∷ "TIMEVALUE" ∷ "TODAY"
    ∷ "WEEKDAY" ∷ "WEEKNUM" ∷ "WORKDAY" ∷ "WORKDAY.INTL" ∷ "YEAR" ∷ "YEARFRAC" ∷ "CELL"
    ∷ "ERROR.TYPE" ∷ "INFO" ∷ "ISBLANK" ∷ "ISERR" ∷ "ISERROR" ∷ "ISEVEN" ∷ "ISFORMULA" ∷ "ISLOGICAL"
    ∷ "ISNA" ∷ "ISNONTEXT" ∷ "ISNUMBER" ∷ "ISODD" ∷ "ISREF" ∷ "ISTEXT" ∷ "N" ∷ "NA" ∷ "SHEET"
    ∷ "SHEETS" ∷ "TYPE" ∷ "DAVERAGE" ∷ "DCOUNT" ∷ "DCOUNTA" ∷ "DGET" ∷ "DMAX" ∷ "DMIN" ∷ "DPRODUCT"
    ∷ "DSTDEV" ∷ "DSTDEVP" ∷ "DSUM" ∷ "DVAR" ∷ "DVARP" ∷ "ACCRINT" ∷ "ACCRINTM" ∷ "AMORDEGRC"
    ∷ "AMORLINC" ∷ "COUPDAYBS" ∷ "COUPDAYS" ∷ "COUPDAYSNC" ∷ "COUPNCD" ∷ "COUPNUM" ∷ "COUPPCD"
    ∷ "CUMIPMT" ∷ "CUMPRINC" ∷ "DB" ∷ "DDB" ∷ "DISC" ∷ "DOLLARDE" ∷ "DOLLARFR" ∷ "DURATION"
    ∷ "EFFECT" ∷ "FV" ∷ "FVSCHEDULE" ∷ "INTRATE" ∷ "IPMT" ∷ "IRR" ∷ "ISPMT" ∷ "MDURATION" ∷ "MIRR"
    ∷ "NOMINAL" ∷ "NPER" ∷ "NPV" ∷ "ODDFPRICE" ∷ "ODDFYIELD" ∷ "ODDLPRICE" ∷ "ODDLYIELD"
    ∷ "PDURATION" ∷ "PMT" ∷ "PPMT" ∷ "PRICE" ∷ "PRICEDISC" ∷ "PRICEMAT" ∷ "PV" ∷ "RATE" ∷ "RECEIVED"
    ∷ "RRI" ∷ "SLN" ∷ "STOCKHISTORY" ∷ "SYD" ∷ "TBILLEQ" ∷ "TBILLPRICE" ∷ "TBILLYIELD" ∷ "VDB"
    ∷ "XIRR" ∷ "XNPV" ∷ "YIELD" ∷ "YIELDDISC" ∷ "YIELDMAT" ∷ "BESSELI" ∷ "BESSELJ" ∷ "BESSELK"
    ∷ "BESSELY" ∷ "BIN2DEC" ∷ "BIN2HEX" ∷ "BIN2OCT" ∷ "BITAND" ∷ "BITLSHIFT" ∷ "BITOR" ∷ "BITRSHIFT"
    ∷ "BITXOR" ∷ "COMPLEX" ∷ "CONVERT" ∷ "DEC2BIN" ∷ "DEC2HEX" ∷ "DEC2OCT" ∷ "DELTA" ∷ "ERF"
    ∷ "ERF.PRECISE" ∷ "ERFC" ∷ "ERFC.PRECISE" ∷ "GESTEP" ∷ "HEX2BIN" ∷ "HEX2DEC" ∷ "HEX2OCT"
    ∷ "IMABS" ∷ "IMAGINARY" ∷ "IMARGUMENT" ∷ "IMCONJUGATE" ∷ "IMCOS" ∷ "IMCOSH" ∷ "IMCOT" ∷ "IMCSC"
    ∷ "IMCSCH" ∷ "IMDIV" ∷ "IMEXP" ∷ "IMLN" ∷ "IMLOG10" ∷ "IMLOG2" ∷ "IMPOWER" ∷ "IMPRODUCT"
    ∷ "IMREAL" ∷ "IMSEC" ∷ "IMSECH" ∷ "IMSIN" ∷ "IMSINH" ∷ "IMSQRT" ∷ "IMSUB" ∷ "IMSUM" ∷ "IMTAN"
    ∷ "OCT2BIN" ∷ "OCT2DEC" ∷ "OCT2HEX" ∷ "ENCODEURL" ∷ "FILTERXML" ∷ "WEBSERVICE" ∷ "CUBEKPIMEMBER"
    ∷ "CUBEMEMBER" ∷ "CUBEMEMBERPROPERTY" ∷ "CUBERANKEDMEMBER" ∷ "CUBESET" ∷ "CUBESETCOUNT"
    ∷ "CUBEVALUE" ∷ []
