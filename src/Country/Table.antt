-- ===== src/Country/Table.antt =====
-- internal/scd/country/country.go: the names of the supported countries, by ISO 3166-1 code.
use scd.Prelude.{String, List, [], ◌∷◌}

pub record Names : Type 0 where
  pub en : String
  pub ru : String

abbrev country : String → String → String → String × Names
country code en ru = (code, record { en = en; ru = ru })

abbrev pub table : List (String × Names)
table =
    country "AD" "Andorra" "Андорра"
    ∷ country "AE" "United Arab Emirates" "ОАЭ"
    ∷ country "AF" "Afghanistan" "Афганистан"
    ∷ country "AG" "Antigua & Barbuda" "Антигуа и Барбуда"
    ∷ country "AI" "Anguilla" "Ангилья"
    ∷ country "AL" "Albania" "Албания"
    ∷ country "AM" "Armenia" "Армения"
    ∷ country "AO" "Angola" "Ангола"
    ∷ country "AQ" "Antarctica" "Антарктида"
    ∷ country "AR" "Argentina" "Аргентина"
    ∷ country "AS" "American Samoa" "Американское Самоа"
    ∷ country "AT" "Austria" "Австрия"
    ∷ country "AU" "Australia" "Австралия"
    ∷ country "AW" "Aruba" "Аруба"
    ∷ country "AX" "Åland Islands" "Аландские о-ва"
    ∷ country "AZ" "Azerbaijan" "Азербайджан"
    ∷ country "BA" "Bosnia & Herzegovina" "Босния и Герцеговина"
    ∷ country "BB" "Barbados" "Барбадос"
    ∷ country "BD" "Bangladesh" "Бангладеш"
    ∷ country "BE" "Belgium" "Бельгия"
    ∷ country "BF" "Burkina Faso" "Буркина-Фасо"
    ∷ country "BG" "Bulgaria" "Болгария"
    ∷ country "BH" "Bahrain" "Бахрейн"
    ∷ country "BI" "Burundi" "Бурунди"
    ∷ country "BJ" "Benin" "Бенин"
    ∷ country "BL" "St. Barthélemy" "Сен-Бартелеми"
    ∷ country "BM" "Bermuda" "Бермудские о-ва"
    ∷ country "BN" "Brunei" "Бруней-Даруссалам"
    ∷ country "BO" "Bolivia" "Боливия"
    ∷ country "BQ" "Caribbean Netherlands" "Бонэйр, Синт-Эстатиус и Саба"
    ∷ country "BR" "Brazil" "Бразилия"
    ∷ country "BS" "Bahamas" "Багамы"
    ∷ country "BT" "Bhutan" "Бутан"
    ∷ country "BV" "Bouvet Island" "о-в Буве"
    ∷ country "BW" "Botswana" "Ботсвана"
    ∷ country "BY" "Belarus" "Беларусь"
    ∷ country "BZ" "Belize" "Белиз"
    ∷ country "CA" "Canada" "Канада"
    ∷ country "CC" "Cocos (Keeling) Islands" "Кокосовые о-ва"
    ∷ country "CD" "Congo - Kinshasa" "Конго - Киншаса"
    ∷ country "CF" "Central African Republic" "Центрально-Африканская Республика"
    ∷ country "CG" "Congo - Brazzaville" "Конго - Браззавиль"
    ∷ country "CH" "Switzerland" "Швейцария"
    ∷ country "CI" "Côte d’Ivoire" "Кот-д’Ивуар"
    ∷ country "CK" "Cook Islands" "Острова Кука"
    ∷ country "CL" "Chile" "Чили"
    ∷ country "CM" "Cameroon" "Камерун"
    ∷ country "CN" "China" "Китай"
    ∷ country "CO" "Colombia" "Колумбия"
    ∷ country "CR" "Costa Rica" "Коста-Рика"
    ∷ country "CU" "Cuba" "Куба"
    ∷ country "CV" "Cape Verde" "Кабо-Верде"
    ∷ country "CW" "Curaçao" "Кюрасао"
    ∷ country "CX" "Christmas Island" "о-в Рождества"
    ∷ country "CY" "Cyprus" "Кипр"
    ∷ country "CZ" "Czechia" "Чехия"
    ∷ country "DE" "Germany" "Германия"
    ∷ country "DJ" "Djibouti" "Джибути"
    ∷ country "DK" "Denmark" "Дания"
    ∷ country "DM" "Dominica" "Доминика"
    ∷ country "DO" "Dominican Republic" "Доминиканская Республика"
    ∷ country "DZ" "Algeria" "Алжир"
    ∷ country "EC" "Ecuador" "Эквадор"
    ∷ country "EE" "Estonia" "Эстония"
    ∷ country "EG" "Egypt" "Египет"
    ∷ country "EH" "Western Sahara" "Западная Сахара"
    ∷ country "ER" "Eritrea" "Эритрея"
    ∷ country "ES" "Spain" "Испания"
    ∷ country "ET" "Ethiopia" "Эфиопия"
    ∷ country "FI" "Finland" "Финляндия"
    ∷ country "FJ" "Fiji" "Фиджи"
    ∷ country "FK" "Falkland Islands" "Фолклендские о-ва"
    ∷ country "FM" "Micronesia" "Федеративные Штаты Микронезии"
    ∷ country "FO" "Faroe Islands" "Фарерские о-ва"
    ∷ country "FR" "France" "Франция"
    ∷ country "GA" "Gabon" "Габон"
    ∷ country "GB" "United Kingdom" "Великобритания"
    ∷ country "GD" "Grenada" "Гренада"
    ∷ country "GE" "Georgia" "Грузия"
    ∷ country "GF" "French Guiana" "Французская Гвиана"
    ∷ country "GG" "Guernsey" "Гернси"
    ∷ country "GH" "Ghana" "Гана"
    ∷ country "GI" "Gibraltar" "Гибралтар"
    ∷ country "GL" "Greenland" "Гренландия"
    ∷ country "GM" "Gambia" "Гамбия"
    ∷ country "GN" "Guinea" "Гвинея"
    ∷ country "GP" "Guadeloupe" "Гваделупа"
    ∷ country "GQ" "Equatorial Guinea" "Экваториальная Гвинея"
    ∷ country "GR" "Greece" "Греция"
    ∷ country "GS" "South Georgia & South Sandwich Islands" "Южная Георгия и Южные Сандвичевы о-ва"
    ∷ country "GT" "Guatemala" "Гватемала"
    ∷ country "GU" "Guam" "Гуам"
    ∷ country "GW" "Guinea-Bissau" "Гвинея-Бисау"
    ∷ country "GY" "Guyana" "Гайана"
    ∷ country "HK" "Hong Kong SAR China" "Гонконг"
    ∷ country "HM" "Heard & McDonald Islands" "о-ва Херд и Макдональд"
    ∷ country "HN" "Honduras" "Гондурас"
    ∷ country "HR" "Croatia" "Хорватия"
    ∷ country "HT" "Haiti" "Гаити"
    ∷ country "HU" "Hungary" "Венгрия"
    ∷ country "ID" "Indonesia" "Индонезия"
    ∷ country "IE" "Ireland" "Ирландия"
    ∷ country "IL" "Israel" "Израиль"
    ∷ country "IM" "Isle of Man" "о-в Мэн"
    ∷ country "IN" "India" "Индия"
    ∷ country "IO" "British Indian Ocean Territory" "Британская территория в Индийском океане"
    ∷ country "IQ" "Iraq" "Ирак"
    ∷ country "IR" "Iran" "Иран"
    ∷ country "IS" "Iceland" "Исландия"
    ∷ country "IT" "Italy" "Италия"
    ∷ country "JE" "Jersey" "Джерси"
    ∷ country "JM" "Jamaica" "Ямайка"
    ∷ country "JO" "Jordan" "Иордания"
    ∷ country "JP" "Japan" "Япония"
    ∷ country "KE" "Kenya" "Кения"
    ∷ country "KG" "Kyrgyzstan" "Киргизия"
    ∷ country "KH" "Cambodia" "Камбоджа"
    ∷ country "KI" "Kiribati" "Кирибати"
    ∷ country "KM" "Comoros" "Коморы"
    ∷ country "KN" "St. Kitts & Nevis" "Сент-Китс и Невис"
    ∷ country "KP" "North Korea" "КНДР"
    ∷ country "KR" "South Korea" "Южная Корея"
    ∷ country "KW" "Kuwait" "Кувейт"
    ∷ country "KY" "Cayman Islands" "Каймановы о-ва"
    ∷ country "KZ" "Kazakhstan" "Казахстан"
    ∷ country "LA" "Laos" "Лаос"
    ∷ country "LB" "Lebanon" "Ливан"
    ∷ country "LC" "St. Lucia" "Сент-Люсия"
    ∷ country "LI" "Liechtenstein" "Лихтенштейн"
    ∷ country "LK" "Sri Lanka" "Шри-Ланка"
    ∷ country "LR" "Liberia" "Либерия"
    ∷ country "LS" "Lesotho" "Лесото"
    ∷ country "LT" "Lithuania" "Литва"
    ∷ country "LU" "Luxembourg" "Люксембург"
    ∷ country "LV" "Latvia" "Латвия"
    ∷ country "LY" "Libya" "Ливия"
    ∷ country "MA" "Morocco" "Марокко"
    ∷ country "MC" "Monaco" "Монако"
    ∷ country "MD" "Moldova" "Молдова"
    ∷ country "ME" "Montenegro" "Черногория"
    ∷ country "MF" "St. Martin" "Сен-Мартен"
    ∷ country "MG" "Madagascar" "Мадагаскар"
    ∷ country "MH" "Marshall Islands" "Маршалловы Острова"
    ∷ country "MK" "North Macedonia" "Северная Македония"
    ∷ country "ML" "Mali" "Мали"
    ∷ country "MM" "Myanmar (Burma)" "Мьянма (Бирма)"
    ∷ country "MN" "Mongolia" "Монголия"
    ∷ country "MO" "Macao SAR China" "Макао (САР)"
    ∷ country "MP" "Northern Mariana Islands" "Северные Марианские о-ва"
    ∷ country "MQ" "Martinique" "Мартиника"
    ∷ country "MR" "Mauritania" "Мавритания"
    ∷ country "MS" "Montserrat" "Монтсеррат"
    ∷ country "MT" "Malta" "Мальта"
    ∷ country "MU" "Mauritius" "Маврикий"
    ∷ country "MV" "Maldives" "Мальдивы"
    ∷ country "MW" "Malawi" "Малави"
    ∷ country "MX" "Mexico" "Мексика"
    ∷ country "MY" "Malaysia" "Малайзия"
    ∷ country "MZ" "Mozambique" "Мозамбик"
    ∷ country "NA" "Namibia" "Намибия"
    ∷ country "NC" "New Caledonia" "Новая Каледония"
    ∷ country "NE" "Niger" "Нигер"
    ∷ country "NF" "Norfolk Island" "о-в Норфолк"
    ∷ country "NG" "Nigeria" "Нигерия"
    ∷ country "NI" "Nicaragua" "Никарагуа"
    ∷ country "NL" "Netherlands" "Нидерланды"
    ∷ country "NO" "Norway" "Норвегия"
    ∷ country "NP" "Nepal" "Непал"
    ∷ country "NR" "Nauru" "Науру"
    ∷ country "NU" "Niue" "Ниуэ"
    ∷ country "NZ" "New Zealand" "Новая Зеландия"
    ∷ country "OM" "Oman" "Оман"
    ∷ country "PA" "Panama" "Панама"
    ∷ country "PE" "Peru" "Перу"
    ∷ country "PF" "French Polynesia" "Французская Полинезия"
    ∷ country "PG" "Papua New Guinea" "Папуа — Новая Гвинея"
    ∷ country "PH" "Philippines" "Филиппины"
    ∷ country "PK" "Pakistan" "Пакистан"
    ∷ country "PL" "Poland" "Польша"
    ∷ country "PM" "St. Pierre & Miquelon" "Сен-Пьер и Микелон"
    ∷ country "PN" "Pitcairn Islands" "острова Питкэрн"
    ∷ country "PR" "Puerto Rico" "Пуэрто-Рико"
    ∷ country "PS" "Palestinian Territories" "Палестинские территории"
    ∷ country "PT" "Portugal" "Португалия"
    ∷ country "PW" "Palau" "Палау"
    ∷ country "PY" "Paraguay" "Парагвай"
    ∷ country "QA" "Qatar" "Катар"
    ∷ country "RE" "Réunion" "Реюньон"
    ∷ country "RO" "Romania" "Румыния"
    ∷ country "RS" "Serbia" "Сербия"
    ∷ country "RU" "Russia" "Россия"
    ∷ country "RW" "Rwanda" "Руанда"
    ∷ country "SA" "Saudi Arabia" "Саудовская Аравия"
    ∷ country "SB" "Solomon Islands" "Соломоновы Острова"
    ∷ country "SC" "Seychelles" "Сейшельские Острова"
    ∷ country "SD" "Sudan" "Судан"
    ∷ country "SE" "Sweden" "Швеция"
    ∷ country "SG" "Singapore" "Сингапур"
    ∷ country "SH" "St. Helena" "о-в Св. Елены"
    ∷ country "SI" "Slovenia" "Словения"
    ∷ country "SJ" "Svalbard & Jan Mayen" "Шпицберген и Ян-Майен"
    ∷ country "SK" "Slovakia" "Словакия"
    ∷ country "SL" "Sierra Leone" "Сьерра-Леоне"
    ∷ country "SM" "San Marino" "Сан-Марино"
    ∷ country "SN" "Senegal" "Сенегал"
    ∷ country "SO" "Somalia" "Сомали"
    ∷ country "SR" "Suriname" "Суринам"
    ∷ country "SS" "South Sudan" "Южный Судан"
    ∷ country "ST" "São Tomé & Príncipe" "Сан-Томе и Принсипи"
    ∷ country "SV" "El Salvador" "Сальвадор"
    ∷ country "SX" "Sint Maarten" "Синт-Мартен"
    ∷ country "SY" "Syria" "Сирия"
    ∷ country "SZ" "Eswatini" "Эсватини"
    ∷ country "TC" "Turks & Caicos Islands" "о-ва Тёркс и Кайкос"
    ∷ country "TD" "Chad" "Чад"
    ∷ country "TF" "French Southern Territories" "Французские Южные территории"
    ∷ country "TG" "Togo" "Того"
    ∷ country "TH" "Thailand" "Таиланд"
    ∷ country "TJ" "Tajikistan" "Таджикистан"
    ∷ country "TK" "Tokelau" "Токелау"
    ∷ country "TL" "Timor-Leste" "Восточный Тимор"
    ∷ country "TM" "Turkmenistan" "Туркменистан"
    ∷ country "TN" "Tunisia" "Тунис"
    ∷ country "TO" "Tonga" "Тонга"
    ∷ country "TR" "Türkiye" "Турция"
    ∷ country "TT" "Trinidad & Tobago" "Тринидад и Тобаго"
    ∷ country "TV" "Tuvalu" "Тувалу"
    ∷ country "TW" "Taiwan" "Тайвань"
    ∷ country "TZ" "Tanzania" "Танзания"
    ∷ country "UA" "Ukraine" "Украина"
    ∷ country "UG" "Uganda" "Уганда"
    ∷ country "UM" "U.S. Outlying Islands" "Внешние малые о-ва (США)"
    ∷ country "US" "United States" "США"
    ∷ country "UY" "Uruguay" "Уругвай"
    ∷ country "UZ" "Uzbekistan" "Узбекистан"
    ∷ country "VA" "Vatican City" "Ватикан"
    ∷ country "VC" "St. Vincent & Grenadines" "Сент-Винсент и Гренадины"
    ∷ country "VE" "Venezuela" "Венесуэла"
    ∷ country "VG" "British Virgin Islands" "Виргинские о-ва (Британские)"
    ∷ country "VI" "U.S. Virgin Islands" "Виргинские о-ва (США)"
    ∷ country "VN" "Vietnam" "Вьетнам"
    ∷ country "VU" "Vanuatu" "Вануату"
    ∷ country "WF" "Wallis & Futuna" "Уоллис и Футуна"
    ∷ country "WS" "Samoa" "Самоа"
    ∷ country "YE" "Yemen" "Йемен"
    ∷ country "YT" "Mayotte" "Майотта"
    ∷ country "ZA" "South Africa" "ЮАР"
    ∷ country "ZM" "Zambia" "Замбия"
    ∷ country "ZW" "Zimbabwe" "Зимбабве"
    ∷ []
